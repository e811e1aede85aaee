-- ===== src/Sketch/Keys/Bounds.antt =====
-- When a key stays inside `leds[288]`.
use effect_piano_light_contr.Base.{
  ℕ, zero, suc, ◌+◌, ◌*◌, ◌≤◌, ◌<◌, ◌≡◌, ◌↔◌, ◌⊎◌, inl, inr, refl, Bool-cases, true, ◌&&◌, Option,
  none, some, ltb, leb, if◌then◌else◌, arith,
}
use effect_piano_light_contr.Sketch.State.{Crgb, Leds, FastLed, Sketch, num_leds, plus, minus}
use effect_piano_light_contr.Sketch.Keys.{spread, key_on, key_off, run_key, ◌>>=◌}

-- The `n` rounds from `i` on stay in range.
abbrev pub Fits : ℕ → ℕ → ℕ → Type 0
Fits at n i = (n ≡ 0) ⊎ ((i + n + 1 ≤ at) × (at + i + n < num_leds))

Fits-step :
    (at n i : ℕ)
    → Fits at (suc n) i
    → (Fits at n (i + 1)) × (ltb (at + i + 1) num_leds && leb (i + 2) at ≡ true)
Fits-step at n i h = ground arith

Fits-back :
    (at n i : ℕ)
    → Fits at n (i + 1)
    → ltb (at + i + 1) num_leds && leb (i + 2) at ≡ true
    → Fits at (suc n) i
Fits-back at n i h k = ground arith

pub spread-Fits :
    (op : Crgb → Crgb → Crgb) (s : Sketch) (at n i : ℕ) (leds : Leds)
    → Fits at n i
    → (out : Leds) × (spread op s at n i leds ≡ some out)
unfolding spread
spread-Fits op s at zero i leds h = (leds, refl)
spread-Fits op s at (suc n) i leds h =
    let (f, inside) = Fits-step at n i h in rw inside (spread-Fits op s at n (i + 1) _ f)

spread_breaks :
    (op : Crgb → Crgb → Crgb) (s : Sketch) (at n i : ℕ) (leds : Leds) {out : Leds}
    → spread op s at n i leds ≡ some out
    → Fits at n i
unfolding spread
spread_breaks op s at zero i leds h = inl refl
spread_breaks op s at (suc n) i leds {out} h =
    elim (Bool-cases (ltb (at + i + 1) num_leds && leb (i + 2) at)) [
      | inl e ↦ Fits-back at n i (spread_breaks op s at n (i + 1) _ (rw e at h)) e
      | inr e ↦ absurd (cc (rw e at h))
    ]

-- The reach of the key `num`: `n` LEDs on each side lie in range.
abbrev pub IsInReach : ℕ → Sketch → Type 0
IsInReach num s =
    s.extend ≡ true → (s.numofextend + 1 ≤ num * 2) × (num * 2 + s.numofextend < num_leds)

-- The LEDs beside a key, or the key alone.
pub lights :
    (op : Crgb → Crgb → Crgb) (s : Sketch) (num : ℕ) (leds : Leds)
    → IsInReach num s
    → (out : Leds) × ((if s.extend then spread op s (num * 2) s.numofextend 0 leds else some leds)
        ≡ some out)
unfolding spread
lights op s num leds h = elim (Bool-cases s.extend) [
  | inl e ↦ rw e (spread-Fits op s (num * 2) s.numofextend 0 leds (inr (omega (arith, h e))))
  | inr e ↦ rw e (leds, refl)
]

lights_back :
    (op : Crgb → Crgb → Crgb) (s : Sketch) (num : ℕ) (leds : Leds) {out : Leds}
    → 2 ≤ num
    → num ≤ 87
    → (if s.extend then spread op s (num * 2) s.numofextend 0 leds else some leds) ≡ some out
    → IsInReach num s
unfolding spread
lights_back op s num leds lo hi h e =
    omega (arith, spread_breaks op s (num * 2) s.numofextend 0 leds (rw e at h))

>>=-some :
    {A B : Type 0} (o : Option A) (f : A → Option B) {b : B}
    → (o >>= f) ≡ some b
    → (a : A) × (o ≡ some a)
>>=-some none f h = cc
>>=-some (some a) f h = (a, refl)

>>=-runs :
    {A B : Type 0} (o : Option A) (f : A → B)
    → (a : A) × (o ≡ some a)
    → (b : B) × ((o >>= λ a. some (f a)) ≡ some b)
>>=-runs none f h = cc (h.1)
>>=-runs (some a) f h = (f a, refl)

module _ (lib : FastLed) where
  key_on_runs :
      (num : ℕ) (s : Sketch) → IsInReach num s → (t : Sketch) × (key_on lib num s ≡ some t)
  unfolding key_on
  key_on_runs num s h = >>=-runs _ _ (lights (plus lib) s num _ h)

  key_off_runs :
      (num : ℕ) (s : Sketch) → IsInReach num s → (t : Sketch) × (key_off lib num s ≡ some t)
  unfolding key_off
  key_off_runs num s h = >>=-runs _ _ (lights (minus lib) s num _ h)

  key_on_reach :
      (num : ℕ) (s : Sketch) {t : Sketch}
      → 2 ≤ num
      → num ≤ 87
      → key_on lib num s ≡ some t
      → IsInReach num s
  unfolding key_on
  key_on_reach num s lo hi h = lights_back (plus lib) s num _ lo hi (>>=-some _ _ h).1

  key_off_reach :
      (num : ℕ) (s : Sketch) {t : Sketch}
      → 2 ≤ num
      → num ≤ 87
      → key_off lib num s ≡ some t
      → IsInReach num s
  unfolding key_off
  key_off_reach num s lo hi h = lights_back (minus lib) s num _ lo hi (>>=-some _ _ h).1

  -- A key from 2 to 87 stays inside `leds` exactly when extension is off, or the LEDs that are lit on
  -- each side of the key lie in range.
  pub run_key_iff :
      (num : ℕ) (s : Sketch)
      → 2 ≤ num
      → num ≤ 87
      → ((t : Sketch) × (run_key lib num s ≡ some t)) ↔ IsInReach num s
  unfolding run_key
  run_key_iff num s lo hi = (there, back)
    where
      there : (t : Sketch) × (run_key lib num s ≡ some t) → IsInReach num s
      there r = elim (Bool-cases (s.flag num)) [
        | inl e ↦ key_off_reach num s lo hi (>>=-some (key_off lib num s) _ (rw e at (r.1))).1
        | inr e ↦ key_on_reach num s lo hi (>>=-some (key_on lib num s) _ (rw e at (r.1))).1
      ]

      back : IsInReach num s → (t : Sketch) × (run_key lib num s ≡ some t)
      back h = elim (Bool-cases (s.flag num)) [
        | inl e ↦ rw e (>>=-runs (key_off lib num s) _ (key_off_runs num s h))
        | inr e ↦ rw e (>>=-runs (key_on lib num s) _ (key_on_runs num s h))
      ]
