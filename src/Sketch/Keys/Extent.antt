-- ===== src/Sketch/Keys/Extent.antt =====
-- What stands behind the `switch` in `loop ()` of Effect_Piano_v1.3.0.ino, with the switches that
-- decide whether it stays in range of `leds` and divides by no 0.
use mathlib.Core.Path.{subst}
use effect_piano_light_contr.Base.{
  ap, ◌∙◌, sym, ℕ, zero, suc, ◌+◌, ◌*◌, ◌≤◌, ◌<◌, ◌≡◌, ◌≢◌, refl, Bool, Bool-cases, inl, inr, true,
  false, ◌&&◌, Option, none, some, leb, leb→le, ◌==◌, if◌then◌else◌, arith,
}
use effect_piano_light_contr.Sketch.State.{
  FastLed, Sketch, Leds, plus, minus, update, show, num_leds,
}
use effect_piano_light_contr.Sketch.Config.{Config, config}
use effect_piano_light_contr.Sketch.Keys.{
  is_positive, turn_circle, fade_key, fade_keys, key_on, key_off, run_key, run_fade, run_refresh,
  run_rainbow, run_rest, ◌>>=◌,
}
use effect_piano_light_contr.Sketch.Keys.Bounds.{IsInReach, lights}

-- What decides whether a key or a round of the fading stays in range.
pub record Extent : Type 0 where
  pub extend : Bool
  pub count : ℕ
  pub remain : Bool
  pub time : ℕ

abbrev pub extent : Config → Extent
extent c = record {
  extend = c.extend;
  count = c.extend_count;
  remain = c.remain;
  time = c.remain_time;
}

-- At most `e` LEDs are lit on each side of a key, and keys do not remain for a time of 0.
pub record IsSafe (e : ℕ) (x : Extent) : Type 0 where
  pub reach : x.extend ≡ true → x.count ≤ e
  pub time : x.remain ≡ true → x.time ≢ 0

branch :
    (a b : Bool) (x s : Sketch)
    → b ≡ false
    → config x ≡ config s
    → (t : Sketch) × ((if a then (if b then none else some x) else some s) ≡ some t)
      × (config t ≡ config s)
branch true b x s e f = (x, rw e, f)
branch false b x s e f = (s, refl, refl)

made :
    (s : Sketch) (o : Option Leds) (f : Leds → Sketch)
    → (l : Leds) × (o ≡ some l)
    → ((l : Leds) → config (f l) ≡ config s)
    → (t : Sketch) × ((o >>= λ l. some (f l)) ≡ some t) × (config t ≡ config s)
made s o f (l, e) k = (f l, ap (λ x. x >>= λ m. some (f m)) e, k l)

shows :
    (s : Sketch) {o : Option Sketch}
    → (t : Sketch) × (o ≡ some t) × (config t ≡ config s)
    → (t : Sketch) × ((o >>= λ u. some (show u)) ≡ some t) × (config t ≡ config s)
shows s (t, e, f) = (show t, ap (λ x. x >>= λ u. some (show u)) e, f)

either :
    (b : Bool) (s : Sketch) {x y : Option Sketch}
    → (b ≡ true → (t : Sketch) × (x ≡ some t) × (config t ≡ config s))
    → (b ≡ false → (t : Sketch) × (y ≡ some t) × (config t ≡ config s))
    → (t : Sketch) × ((if b then x else y) ≡ some t) × (config t ≡ config s)
either true s p q = p refl
either false s p q = q refl

behind :
    (s : Sketch) {o : Option Sketch} (f : Sketch → Option Sketch)
    → (t : Sketch) × (o ≡ some t) × (config t ≡ config s)
    → ((t : Sketch) → config t ≡ config s → (u : Sketch) × (f t ≡ some u) × (config u ≡ config t))
    → (u : Sketch) × ((o >>= f) ≡ some u) × (config u ≡ config s)
behind s f (t, e, g) k = let (u, e', g') = k t g in (u, ap (λ x. x >>= f) e ∙ e', g' ∙ g)

and_left : (a b : Bool) → a && b ≡ true → a ≡ true
and_left true b e = refl
and_left false b e = e

and_right : (a b : Bool) → a && b ≡ true → b ≡ true
and_right true b e = e
and_right false b e = cc

IsSafe-reach :
    (e num : ℕ) (t : Sketch)
    → IsSafe e (extent (config t))
    → (e + 1 ≤ num * 2) × (num * 2 + e < num_leds)
    → IsInReach num t
IsSafe-reach e num t safe far x = omega (arith, safe.reach x)

module _ (lib : FastLed) where
  fade_key_runs :
      (i : ℕ) (s : Sketch)
      → s.rm_time == 0 ≡ false
      → (t : Sketch) × (fade_key lib i s ≡ some t) × (config t ≡ config s)
  unfolding fade_key
  fade_key_runs i s e = branch (is_positive (s.rm_times i)) (s.rm_time == 0) _ s e refl

  fade_keys_runs :
      (n i : ℕ) (s : Sketch)
      → s.rm_time == 0 ≡ false
      → (t : Sketch) × (fade_keys lib n i s ≡ some t) × (config t ≡ config s)
  unfolding fade_keys
  fade_keys_runs zero i s e = (s, refl, refl)
  fade_keys_runs (suc n) i s e =
      let (t, f, g) = fade_key_runs i s e in
      let (u, f', g') =
        fade_keys_runs n (i + 1) t (ap (λ (x : Config). x.remain_time == 0) g ∙ e) in
      (u, ap (λ o. o >>= fade_keys lib n (i + 1)) f ∙ f', g' ∙ g)

  config-turn_circle : (s : Sketch) → config (turn_circle s) ≡ config s
  unfolding turn_circle
  config-turn_circle s = elim (Bool-cases s.flagc) [ inl e ↦ rw e | inr e ↦ rw e ]

  key_on_runs :
      (num : ℕ) (s : Sketch)
      → IsInReach num s
      → (t : Sketch) × (key_on lib num s ≡ some t) × (config t ≡ config s)
  unfolding key_on
  key_on_runs num s h =
      made s _ _ (lights (plus lib) s num _ h)
        λ l. config-turn_circle (record s { flag = update num true s.flag; pin = true; leds = l })

  key_off_runs :
      (num : ℕ) (s : Sketch)
      → IsInReach num s
      → (t : Sketch) × (key_off lib num s ≡ some t) × (config t ≡ config s)
  unfolding key_off
  key_off_runs num s h = made s _ _ (lights (minus lib) s num _ h) λ l. refl

  run_key_runs :
      (num : ℕ) (s : Sketch)
      → IsInReach num s
      → (t : Sketch) × (run_key lib num s ≡ some t) × (config t ≡ config s)
  unfolding run_key
  run_key_runs num s h =
      shows s (either (s.flag num) s (λ _. key_off_runs num s h) (λ _. key_on_runs num s h))

  run_fade_runs :
      (s : Sketch)
      → s.rm_time == 0 ≡ false
      → (t : Sketch) × (run_fade lib s ≡ some t) × (config t ≡ config s)
  unfolding run_fade
  run_fade_runs s e = shows s (fade_keys_runs 88 1 s e)

  -- What stands behind the `switch` has a result for every byte, if the reach of a key is in range.
  pub run_rest_runs :
      (e num : ℕ) (s : Sketch)
      → IsSafe e (extent (config s))
      → (2 ≤ num → num ≤ 87 → (e + 1 ≤ num * 2) × (num * 2 + e < num_leds))
      → (t : Sketch) × (run_rest lib num s ≡ some t) × (config t ≡ config s)
  unfolding run_rest run_rainbow run_refresh
  run_rest_runs e num s safe far =
      either s.rbstatus s (λ _. (run_rainbow lib s, refl, refl))
        λ _.
          either s.rb_refresh s (λ _. (run_refresh s, refl, refl))
            λ _.
              behind s _
                (either (s.rm_status && num == 100) s
                  (λ b. run_fade_runs s (ground (arith, safe.time (and_left s.rm_status _ b))))
                  (λ _. (s, refl, refl)))
                λ t g.
                  either (leb 2 num && leb num 87) t
                    (λ b. run_key_runs num t (
                      IsSafe-reach e num t (subst (λ c. IsSafe e (extent c)) (sym g) safe) (
                        far (leb→le 2 num (and_left (leb 2 num) _ b))
                          (leb→le num 87 (and_right (leb 2 num) _ b)))))
                    (λ _. (t, refl, refl))
