-- ===== src/Host/Palette.antt =====
-- The colours of Effect_Piano/Effect_Piano.cpp, the file `<name>.efpcolor` that holds them, and
-- `get_bg_color`.
pub mod File
use effect_piano_light_contr.Base.{
  ℕ, zero, suc, ◌+◌, ◌<◌, ◌≡◌, Bool, true, false, List, [], ◌∷◌, Option, none, some, ltb, ◌==◌,
  ◌&&◌, if◌then◌else◌,
}
use effect_piano_light_contr.Base.Int.{ℤ, pos, negsuc, ◌*ℤ◌, ◌-ℤ◌, pos_part, is_zero, div_trunc}
use effect_piano_light_contr.Host.Text.{
  Word, num, text, Lines, Reader, ◌>>=◌, pure, scan_int, read_int,
}
use effect_piano_light_contr.Host.Settings.{Settings}

-- `nodec`
pub record Color : Type 0 where
  pub r : ℤ
  pub g : ℤ
  pub b : ℤ

-- `color[100]` as the memory from its first element on: at an index that is out of range stands
-- whatever the program finds there.
pub record Palette : Type 0 where
  pub num_color : ℤ
  pub color : ℤ → Color
  pub color_background : Color
  pub color_plus : Color
  pub color_bg_real : Color

-- `n * ((float) brightness / 256)` as an int. The factor is exact, and so is the product while it
-- is below 2 ^ 24 in size: the float computes what the integers do.
abbrev pub scale : ℤ → ℤ → ℤ
scale brightness n = div_trunc (n *ℤ brightness) 256

unfoldable pub get_bg_color : ℤ → ℤ → Settings × Palette → Bool × Settings × Palette
get_bg_color fg bg (s, p) =
    if is_zero s.bright_background then (false, record s { on_background = false }, p) else (
      true,
      s,
      record p {
        color_background = back;
        color_bg_real = real;
        color_plus = record {
          r = (p.color fg).r -ℤ real.r;
          g = (p.color fg).g -ℤ real.g;
          b = (p.color fg).b -ℤ real.b;
        };
      },
    )
  where
    back : Color
    back = p.color bg

    real : Color
    real = record {
      r = scale s.bright_background back.r;
      g = scale s.bright_background back.g;
      b = scale s.bright_background back.b;
    }

-- The same index of an array.
abbrev pub same_index : ℤ → ℕ → Bool
same_index (pos n) i = n == i
same_index (negsuc n) i = false

abbrev pub write_at : ℕ → Color → (ℤ → Color) → ℤ → Color
write_at i c colors j = if same_index j i then c else colors j

-- `scanf ("%d%d%d", &r, &g, &b)` stops at the first that is no number.
unfoldable pub scan_rgb : Color → Lines → (Color × Bool) × Lines
unfolding scan_int
scan_rgb c ls =
    let (r, rest_r) = scan_int ls in
    let (g, rest_g) = scan_int rest_r in
    let (b, rest_b) = scan_int rest_g in
    elim r [
      | none ↦ ((c, false), rest_r)
      | some r' ↦ elim g [
        | none ↦ ((record c { r = r' }, true), rest_g)
        | some g' ↦ elim b [
          | none ↦ ((record c { r = r'; g = g' }, true), rest_b)
          | some b' ↦ ((record { r = r'; g = g'; b = b' }, true), rest_b)
        ]
      ]
    ]

-- One round of the loop in `read_color`; `none` if it writes past `color[99]`.
unfoldable pub read_rgb : ℕ → (ℤ → Color) → Reader (ℤ → Color)
unfolding scan_rgb
read_rgb i colors ls =
    let ((c, wrote), rest) = scan_rgb (colors (pos i)) ls in
    if wrote
    then (if ltb i 100 then some (write_at i c colors, rest) else none)
    else some (colors, rest)

unfoldable pub read_rgbs : ℕ → ℕ → (ℤ → Color) → Reader (ℤ → Color)
unfolding read_rgb
read_rgbs zero i colors = pure colors
read_rgbs (suc n) i colors = do next ← read_rgb i colors; read_rgbs n (i + 1) next

-- `read_color`, from the text of the file.
unfoldable pub read_color : Palette → Reader (Bool × Palette)
unfolding scan_int
read_color p = do
  n ← read_int p.num_color
  colors ← read_rgbs (pos_part n) 0 p.color
  pure (if is_zero n then false else true, record p { num_color = n; color = colors })

-- The rounds left, the index and the memory.
abbrev pub print_colors : ℕ → ℕ → (ℤ → Color) → Lines
print_colors zero i colors = []
print_colors (suc n) i colors =
    (num (colors (pos i)).r ∷ num (colors (pos i)).g ∷ num (colors (pos i)).b ∷ [])
    ∷ print_colors n (i + 1) colors

-- What `write_color` writes to the file.
unfoldable pub print_palette : Palette → Lines
print_palette p = (num p.num_color ∷ []) ∷ print_colors (pos_part p.num_color) 0 p.color

-- The lines of the colours on the console, from the index on.
abbrev pub print_rows : ℕ → ℕ → (ℤ → Color) → Lines
print_rows zero i colors = []
print_rows (suc n) i colors =
    (num (pos (i + 1))
      ∷ num (colors (pos i)).r
      ∷ num (colors (pos i)).g
      ∷ num (colors (pos i)).b
      ∷ [])
    ∷ print_rows n (i + 1) colors

-- What `print_color` puts on the console.
unfoldable pub print_color : Palette → Lines
print_color p =
    (num p.num_color ∷ text "color(s)" ∷ text "is" ∷ text "in" ∷ text "this" ∷ text "setting" ∷ [])
    ∷ (text "num" ∷ text "r" ∷ text "g" ∷ text "b" ∷ [])
    ∷ print_rows (pos_part p.num_color) 0 p.color
