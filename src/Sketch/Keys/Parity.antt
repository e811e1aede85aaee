-- ===== src/Sketch/Keys/Parity.antt =====
-- Any sequence of keys of Effect_Piano_v1.3.0.ino: what is lit depends on how often each key came.
use mathlib.Core.Path.{subst}
use effect_piano_light_contr.Base.{
  ℕ, zero, suc, ◌≤◌, ◌<◌, ◌≡◌, refl, ap, inl, inr, Bool, Bool-cases, true, false, not, ◌||◌, ◌==◌,
  ltb, if◌then◌else◌, arith, List, [], ◌∷◌, length,
}
use effect_piano_light_contr.Sketch.State.{FastLed, Leds, Saturates, Sketch}
use effect_piano_light_contr.Sketch.Serial.{bytes}
use effect_piano_light_contr.Sketch.Loop.{feed, ready}
use effect_piano_light_contr.Sketch.Steps.{Steps, step, stop, feed-Steps}
use effect_piano_light_contr.Sketch.Keys.Bounds.{IsInReach}
use effect_piano_light_contr.Sketch.Keys.Paint.{painted, IsWithin, Covers, Covers-update}
use effect_piano_light_contr.Sketch.Keys.Board.{IsStill, SameSetup, Shines, flip, strike}

-- The bytes of keys with all that they reach in range.
pub data AreKeys (s : Sketch) : List ℕ → Type 0 where
  no_keys : AreKeys s []
  then_key :
      {k : ℕ} {ks : List ℕ} → 2 ≤ k → k ≤ 87 → IsInReach k s → AreKeys s ks → AreKeys s (k ∷ ks)

-- How often `k` stands in a list
abbrev pub count : ℕ → List ℕ → ℕ
count k [] = 0
count k (x ∷ xs) = let rest = count k xs in if k == x then suc rest else rest

abbrev pub is_odd : ℕ → Bool
is_odd zero = false
is_odd (suc n) = not (is_odd n)

-- What is lit behind the keys: those that came an odd number of times have changed.
abbrev pub lit_after : List ℕ → (ℕ → Bool) → ℕ → Bool
lit_after ks on k = if is_odd (count k ks) then not (on k) else on k

-- The keys that are lit or come.
abbrev pub ever_lit : List ℕ → (ℕ → Bool) → ℕ → Bool
ever_lit ks on k = on k || ltb 0 (count k ks)

not-not : (b : Bool) → not (not b) ≡ b
not-not true = refl
not-not false = refl

lit_after-flip :
    (x : ℕ) (xs : List ℕ) (on : ℕ → Bool) (k : ℕ)
    → lit_after xs (flip x on) k ≡ lit_after (x ∷ xs) on k
lit_after-flip x xs on k = elim (Bool-cases (k == x)) [
  | inl e ↦
      let same : k ≡ x = ground arith in
      rw (e, ← same)
        (elim (Bool-cases (is_odd (count k xs))) [
          | inl o ↦ rw o (not-not (on k))
          | inr o ↦ rw o refl
        ])
  | inr e ↦ rw e refl
]

module _ {lib : FastLed} (laws : Saturates lib) {s : Sketch} {base : Leds} {more : ℕ → Bool} where
  keys-Shines :
      (on : ℕ → Bool) (t : Sketch) {ks : List ℕ}
      → IsStill s
      → AreKeys s ks
      → Covers more on
      → ((k : ℕ) → 0 < count k ks → more k ≡ true)
      → Shines s base more on t
      → (u : Sketch) × Steps lib t ks u × Shines s base more (lit_after ks on) u
  keys-Shines on t still no_keys cover may shines = (t, stop t, shines)
  keys-Shines on t still (then_key {k} {ks} lo top reach keys) cover may shines =
      let here : more k ≡ true = may k (ground arith) in
      let (u, obeys, first) = strike laws k lo top still reach here cover shines in
      let (v, steps, rest) =
        keys-Shines (flip k on) u still keys (Covers-update more on k (not (on k)) here cover)
          (λ j h. may j (ground arith)) first in
      (
        v,
        step k [] obeys steps,
        subst (λ on'. Shines s base more on' v) (λ i j. lit_after-flip k ks on j i) rest,
      )

ever_lit-Covers : (ks : List ℕ) (on : ℕ → Bool) → Covers (ever_lit ks on) on
ever_lit-Covers ks on k e = rw e refl

ever_lit-counts : (ks : List ℕ) (on : ℕ → Bool) (k : ℕ) → 0 < count k ks → ever_lit ks on k ≡ true
ever_lit-counts ks on k h = ground arith

-- If FastLED's sums and differences of bytes saturate, and neither a rainbow nor the fading is on: the
-- sketch takes any sequence of keys from 2 to 87, each with all that it reaches in range. Then the keys
-- are lit that were lit and came an even number of times, or were dark and came an odd number of times,
-- and only lights, flags and the ring have changed. Let every LED below the ring that has room for the
-- shares of all keys that were lit or came show a colour with the shares of the lit keys added; then
-- it shows, behind the keys, the same colour with the shares of the keys that are lit then.
pub keys_by_parity :
    {lib : FastLed} (laws : Saturates lib) (s : Sketch) (base : Leds) (ks : List ℕ) (fuel : ℕ)
    → IsStill s
    → AreKeys s ks
    → length ks ≤ fuel
    → ((j : ℕ)
        → j < 227
        → IsWithin (painted s j (ever_lit ks s.flag) (base j))
        → s.leds j ≡ painted s j s.flag (base j))
    → (t : Sketch) × (feed lib fuel s (bytes ks) ≡ ready t)
      × SameSetup s t
      × ((k : ℕ) → t.flag k ≡ lit_after ks s.flag k)
      × ((j : ℕ)
          → j < 227
          → IsWithin (painted s j (ever_lit ks s.flag) (base j))
          → t.leds j ≡ painted s j (lit_after ks s.flag) (base j))
keys_by_parity {lib} laws s base ks fuel still keys enough shows =
    let (t, steps, shines) =
      keys-Shines laws s.flag s still keys (ever_lit-Covers ks s.flag) (ever_lit-counts ks s.flag)
        (record { same_setup = refl; flag = refl; led = shows }) in
    (
      t,
      feed-Steps lib fuel enough steps,
      shines.same_setup,
      λ k. ap (λ f. f k) (shines.flag),
      shines.led,
    )
