-- ===== src/Sketch/Keys/Sums.antt =====
-- The colour of an LED under the shares of all keys that are lit.
use effect_piano_light_contr.Base.{
  ℕ, zero, suc, ◌+◌, ◌≤◌, ◌<◌, ◌≡◌, refl, ap, inl, inr, Bool, Bool-cases, true, false, ◌==◌,
  if◌then◌else◌, arith,
}
use effect_piano_light_contr.Sketch.State.{update}

-- The sum of `w` over the keys below `n` that are on
abbrev pub sum : (ℕ → ℕ) → (ℕ → Bool) → ℕ → ℕ
sum w on zero = 0
sum w on (suc n) = (if on n then w n else 0) + sum w on n

sum-update_ge :
    (w : ℕ → ℕ) (k : ℕ) (b : Bool) (on : ℕ → Bool) (n : ℕ)
    → n ≤ k
    → sum w (update k b on) n ≡ sum w on n
sum-update_ge w k b on zero h = refl
sum-update_ge w k b on (suc n) h = ground (arith, sum-update_ge w k b on n (omega arith))

-- A key that goes on or off
pub sum-update :
    (w : ℕ → ℕ) (k : ℕ) (on : ℕ → Bool) (n : ℕ)
    → k < n
    → sum w (update k true on) n ≡ sum w (update k false on) n + w k
sum-update w k on zero h = absurd (omega arith)
sum-update w k on (suc n) h = elim (Bool-cases (n == k)) [
  | inl e ↦
      let same : n ≡ k = ground arith in
      ground (
        arith,
        ap w same,
        sum-update_ge w k true on n (omega arith),
        sum-update_ge w k false on n (omega arith),
      )
  | inr e ↦ ground (arith, sum-update w k on n (ground arith))
]

pub sum-same :
    (w : ℕ → ℕ) (on off : ℕ → Bool) (n : ℕ) → ((k : ℕ) → on k ≡ off k) → sum w on n ≡ sum w off n
sum-same w on off zero h = refl
sum-same w on off (suc n) h = rw (h n, sum-same w on off n h) refl

pub sum-le :
    (w : ℕ → ℕ) (on more : ℕ → Bool) (n : ℕ)
    → ((k : ℕ) → on k ≡ true → more k ≡ true)
    → sum w on n ≤ sum w more n
sum-le w on more zero h = omega arith
sum-le w on more (suc n) h = elim (Bool-cases (on n)) [
  | inl e ↦ ground (arith, h n e, sum-le w on more n h)
  | inr e ↦ ground (arith, sum-le w on more n h)
]
