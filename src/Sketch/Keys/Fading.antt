-- ===== src/Sketch/Keys/Fading.antt =====
-- The fading of the keys comes to an end.
use effect_piano_light_contr.Base.{
  ℕ, zero, suc, ◌+◌, ◌-◌, ◌/◌, ◌≤◌, ◌≡◌, ◌≢◌, ◌∙◌, refl, ap, inl, inr, Bool, Bool-cases, true,
  false, not, ◌&&◌, Option, some, ltb, leb, ◌==◌, ==_iff, if◌then◌else◌, arith, [], replicate,
  length-replicate,
}
use effect_piano_light_contr.Sketch.State.{
  Crgb, Leds, FastLed, Sketch, crgb, back_color, update, on_pair, minus, show,
}
use effect_piano_light_contr.Sketch.Serial.{bytes}
use effect_piano_light_contr.Sketch.Commands.{decode}
use effect_piano_light_contr.Sketch.Keys.{
  is_positive, fade_key, fade_keys, run_fade, run_rest, ◌>>=◌,
}
use effect_piano_light_contr.Sketch.Loop.{lift, feed, ready, run_command}
use effect_piano_light_contr.Sketch.Steps.{Obeys, Steps, step, stop, feed-Steps}

-- What a round of the fading makes of a count.
abbrev fall : ℕ → ℕ
fall x = if is_positive x then x - 1 else x

-- The sketch fades, and a division by the remaining time has a result.
record Fades (s : Sketch) : Type 0 where
  remains : s.rm_status ≡ true
  time : s.rm_time == 0 ≡ false
  still : s.rbstatus ≡ false
  fresh : s.rb_refresh ≡ false

update-fall :
    (i j : ℕ) (m : ℕ → ℕ)
    → is_positive (m i) ≡ true
    → update i (m i - 1) m j ≡ (if j == i then fall (m j) else m j)
update-fall i j m e = elim (Bool-cases (j == i)) [
  | inl p ↦ ground (arith, ap m ((==_iff j i).0 p))
  | inr p ↦ rw p
]

keep-fall :
    (i j : ℕ) (m : ℕ → ℕ) → is_positive (m i) ≡ false → m j ≡ (if j == i then fall (m j) else m j)
keep-fall i j m e = elim (Bool-cases (j == i)) [
  | inl p ↦ ground (arith, ap m ((==_iff j i).0 p))
  | inr p ↦ rw p
]

-- One key more.
fall_next :
    (i n j x y z : ℕ)
    → y ≡ (if j == i then fall x else x)
    → z ≡ (if leb (i + 1) j && ltb j (i + 1 + n) then fall y else y)
    → z ≡ (if leb i j && ltb j (i + suc n) then fall x else x)
fall_next i n j x y z h k = ground arith

-- The branches of what stands behind the `switch`.
fading_branch :
    {rainbow refresh fade : Bool} (a b s : Sketch) (c : Option Sketch) (f : Sketch → Option Sketch)
    → rainbow ≡ false
    → refresh ≡ false
    → fade ≡ true
    → (if rainbow then some a else if refresh then some b else (if fade then c else some s) >>= f)
      ≡ (c >>= f)
fading_branch a b s c f e g h = rw (e, g, h)

module _ (lib : FastLed) where
  fade_key-Fades :
      (i : ℕ) (s : Sketch)
      → Fades s
      → (t : Sketch) × (fade_key lib i s ≡ some t)
        × Fades t
        × ((j : ℕ) → t.rm_times j ≡ (if j == i then fall (s.rm_times j) else s.rm_times j))
  unfolding fade_key
  fade_key-Fades i s f = elim (Bool-cases (is_positive (s.rm_times i))) [
    | inl e ↦
        (let d : Crgb = crgb (s.r / s.rm_time + 1) (s.g / s.rm_time + 1) (s.b / s.rm_time + 1) in
          let faded : Leds = on_pair (λ c. minus lib c d) i s.leds in
          (
            record s {
              rm_times = update i (s.rm_times i - 1) s.rm_times;
              leds =
                  if s.rm_times i - 1 == 0 && s.on_background && not (s.flag i)
                  then on_pair (λ _. back_color s) i faded
                  else faded;
            },
            rw (e, f.time),
            record { remains = f.remains; time = f.time; still = f.still; fresh = f.fresh },
            λ j. update-fall i j s.rm_times e,
          ))
    | inr e ↦ (s, rw e, f, λ j. keep-fall i j s.rm_times e)
  ]

  fade_keys-Fades :
      (n i : ℕ) (s : Sketch)
      → Fades s
      → (t : Sketch) × (fade_keys lib n i s ≡ some t)
        × Fades t
        × ((j : ℕ)
            → t.rm_times j
              ≡ (if leb i j && ltb j (i + n) then fall (s.rm_times j) else s.rm_times j))
  unfolding fade_keys
  fade_keys-Fades zero i s f = (s, refl, f, λ j. ground arith)
  fade_keys-Fades (suc n) i s f =
      let (t, e, g, k) = fade_key-Fades i s f in
      let (u, e', g', k') = fade_keys-Fades n (i + 1) t g in
      (
        u,
        ap (λ o. o >>= fade_keys lib n (i + 1)) e ∙ e',
        g',
        λ j. fall_next i n j (s.rm_times j) (t.rm_times j) (u.rm_times j) (k j) (k' j),
      )

  -- The byte 100 takes one off every count that is above 0.
  fade-Obeys :
      (s : Sketch)
      → Fades s
      → (t : Sketch) × Obeys lib s 100 [] t
        × Fades t
        × ((j : ℕ) → 1 ≤ j → j ≤ 88 → t.rm_times j ≡ fall (s.rm_times j))
  unfolding run_command decode run_rest run_fade
  fade-Obeys s f =
      let (t, e, g, k) = fade_keys-Fades 88 1 s f in
      let rest : run_rest lib 100 s ≡ some (show t) =
        fading_branch {fade = s.rm_status && true} _ _ s (run_fade lib s) (λ x. some x) f.still
          f.fresh (ground (arith, f.remains))
        ∙ ap (λ o. (o >>= λ (x : Sketch). some (show x)) >>= λ (x : Sketch). some x) e in
      (
        show t,
        record { takes = λ ps. ap (λ o. lift o ps) rest },
        record { remains = g.remains; time = g.time; still = g.still; fresh = g.fresh },
        λ j lo hi. ground (arith, k j),
      )

  fades :
      (n : ℕ) (s : Sketch)
      → Fades s
      → (t : Sketch) × Steps lib s (replicate n 100) t
        × ((j : ℕ)
            → 1 ≤ j
            → j ≤ 88
            → ltb (s.rm_times j) 128 ≡ true
            → t.rm_times j ≡ s.rm_times j - n)
        × ((j : ℕ) → 1 ≤ j → j ≤ 88 → ltb (s.rm_times j) 128 ≡ false → t.rm_times j ≡ s.rm_times j)
  fades zero s f = (s, stop s, λ j lo hi h. omega arith, λ j lo hi h. refl)
  fades (suc n) s f =
      let (t, o, g, k) = fade-Obeys s f in
      let (u, p, short, long) = fades n t g in
      (
        u,
        step 100 [] o p,
        λ j lo hi h. ground (arith, k j lo hi, short j lo hi),
        λ j lo hi h. ground (arith, k j lo hi, long j lo hi),
      )

-- While keys remain, for a time that is not 0, and no rainbow is on, 127 or more bytes 100 end the fading: no count of a key is
-- above 0 any more. A count of 128 or more, which is a negative char, stays as it was.
pub fades_out :
    (lib : FastLed) (t : Sketch) (n fuel : ℕ)
    → t.rm_status ≡ true
    → t.rm_time ≢ 0
    → t.rbstatus ≡ false
    → t.rb_refresh ≡ false
    → 127 ≤ n
    → n ≤ fuel
    → (t' : Sketch) × (feed lib fuel t (bytes (replicate n 100)) ≡ ready t')
      × ((j : ℕ) → 1 ≤ j → j ≤ 88 → is_positive (t'.rm_times j) ≡ false)
      × ((j : ℕ) → 1 ≤ j → j ≤ 88 → 128 ≤ t.rm_times j → t'.rm_times j ≡ t.rm_times j)
fades_out lib t n fuel remains time still fresh long enough =
    let (u, p, short, negative) =
      fades lib n t
        (record { remains = remains; time = ground arith; still = still; fresh = fresh }) in
    (
      u,
      feed-Steps lib fuel (omega (arith, length-replicate {A = ℕ} n 100)) p,
      λ j lo hi. ground (arith, short j lo hi, negative j lo hi),
      λ j lo hi h. ground (arith, negative j lo hi),
    )
