-- ===== src/Sketch/Keys/Shares.antt =====
-- The share of a key's colour that each LED of `leds` gets.
use mathlib.Core.Option.{some-injective}
use effect_piano_light_contr.Base.{
  sym, ℕ, zero, suc, ◌+◌, ◌-◌, ◌≤◌, ◌≡◌, ◌∙◌, ap, inl, inr, Bool-cases, ◌&&◌, Option, none, some,
  ltb, leb, ◌==◌, if◌then◌else◌, arith,
}
use effect_piano_light_contr.Sketch.State.{Crgb, Leds, Sketch, num_leds, update}
use effect_piano_light_contr.Sketch.Keys.{spread, glow}

-- What the rounds from `i` on of the loop beside `leds[at]` add at LED `j`, `n` of them.
abbrev pub beside : (ℕ → Crgb) → ℕ → ℕ → ℕ → ℕ → Option Crgb
beside g at n i j =
    if ltb (at + i) j && leb j (at + i + n)
    then some (g (j - at - 1))
    else if leb (j + i + 2) at && leb at (j + i + 1 + n)
    then some (g (at - 2 - j))
    else none

-- `op` with the share, if there is one.
abbrev pub touch : (Crgb → Crgb → Crgb) → Option Crgb → Crgb → Crgb
touch op none x = x
touch op (some c) x = op x c

none-beside : (g : ℕ → Crgb) (at i j : ℕ) → beside g at 0 i j ≡ none
none-beside g at i j = ground arith

-- One round of the loop, seen from LED `j`.
beside_step :
    (op : Crgb → Crgb → Crgb) (g : ℕ → Crgb) (at n i : ℕ) (leds : Leds) (j : ℕ)
    → i + 2 ≤ at
    → (let right = update (at + i + 1) (op (leds (at + i + 1)) (g i)) leds in
        touch op
          (beside g at n (i + 1) j)
          (update (at - i - 2) (op (right (at - i - 2)) (g i)) right j))
      ≡ touch op (beside g at (suc n) i j) (leds j)
beside_step op g at n i leds j h = elim (Bool-cases (j == at + i + 1)) [
  | inl e ↦ let k : j - at - 1 ≡ i = ground arith in ground (arith, ap g k)
  | inr e ↦ elim (Bool-cases (j == at - i - 2)) [
    | inl f ↦ let k : at - 2 - j ≡ i = ground arith in ground (arith, ap g k)
    | inr f ↦ ground arith
  ]
]

pub spread_lem :
    (op : Crgb → Crgb → Crgb) (s : Sketch) (at n i : ℕ) (leds : Leds) {out : Leds} (j : ℕ)
    → spread op s at n i leds ≡ some out
    → out j ≡ touch op (beside (glow s) at n i j) (leds j)
unfolding spread
spread_lem op s at zero i leds j h =
    rw (none-beside (glow s) at i j) (ap (λ f. f j) (sym (some-injective _ _ h)))
spread_lem op s at (suc n) i leds {out} j h =
    elim (Bool-cases (ltb (at + i + 1) num_leds && leb (i + 2) at)) [
      | inl e ↦
          spread_lem op s at n (i + 1) _ j (rw e at h)
          ∙ beside_step op (glow s) at n i leds j (ground arith)
      | inr e ↦ absurd (cc (rw e at h))
    ]
