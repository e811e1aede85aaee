-- ===== src/Host/Palette/File.antt =====
-- `read_color` reads back what `write_color` wrote, and the mixing of `get_bg_color`.
use effect_piano_light_contr.Base.{
  ◌∙◌, inl, inr, ℕ, zero, suc, ◌+◌, ◌≤◌, ◌<◌, ◌≡◌, refl, Bool-cases, true, [], ◌∷◌, some, arith,
  lt→ltb, ◌==◌,
}
use effect_piano_light_contr.Base.Int.{ℤ, pos}
use effect_piano_light_contr.Host.Text.{◌>>=◌}
use effect_piano_light_contr.Host.Palette.{
  Color, Palette, write_at, read_rgbs, read_color, print_colors, print_palette,
}

-- `new` in the first `n` colours from index `i` on, `old` elsewhere.
abbrev pub splice : ℕ → ℕ → (ℤ → Color) → (ℤ → Color) → ℤ → Color
splice zero i new old = old
splice (suc n) i new old = splice n (i + 1) new (write_at i (new (pos i)) old)

read_rgbs-print :
    (n i : ℕ) (new old : ℤ → Color)
    → i + n < 100
    → read_rgbs (suc n) i old ([] ∷ print_colors (suc n) i new)
      ≡ some (splice (suc n) i new old, [] ∷ [])
unfolding read_rgbs
read_rgbs-print zero i new old h = rw (lt→ltb i 100 (omega arith), ◌>>=◌)
read_rgbs-print (suc n) i new old h =
    rw (lt→ltb i 100 (omega arith), ◌>>=◌)
      (read_rgbs-print n (i + 1) new (write_at i (new (pos i)) old) (omega arith))

-- Outside the range that is written nothing changes.
splice_below : (n i j : ℕ) (new old : ℤ → Color) → j < i → splice n i new old (pos j) ≡ old (pos j)
splice_below zero i j new old h = refl
splice_below (suc n) i j new old h =
    splice_below n (i + 1) j new (write_at i (new (pos i)) old) (omega arith) ∙ ground arith

splice_within :
    (n i j : ℕ) (new old : ℤ → Color) → i ≤ j → j < i + n → splice n i new old (pos j) ≡ new (pos j)
splice_within zero i j new old h k = absurd (omega arith)
splice_within (suc n) i j new old h k = elim (Bool-cases (i == j)) [
  | inl e ↦ ground (arith, splice_below n (i + 1) j new (write_at i (new (pos i)) old))
  | inr e ↦
      splice_within n (i + 1) j new (write_at i (new (pos i)) old) (ground arith) (omega arith)
]

-- `read_color` reads back the colours that `write_color` wrote, from 1 to 100 of them, and says so.
pub read_color-print :
    (old p : Palette) (n : ℕ)
    → p.num_color ≡ pos (suc n)
    → n < 100
    → (q : Palette) × (read_color old (print_palette p) ≡ some ((true, q), [] ∷ []))
      × (q.num_color ≡ p.num_color)
      × ((i : ℕ) → i ≤ n → q.color (pos i) ≡ p.color (pos i))
unfolding read_color print_palette read_rgbs
read_color-print old p n e h = (
  record old { num_color = p.num_color; color = splice (suc n) 0 p.color old.color },
  rw (e, read_rgbs-print n 0 p.color old.color (omega arith)),
  refl,
  λ i k. splice_within (suc n) 0 i p.color old.color (omega arith) (omega arith),
)
