-- ===== src/Host/Text.antt =====
-- Text files as `scanf` and `cin.getline` of Effect_Piano/Effect_Piano.cpp read them: lines of
-- words. That a printed int is read back as that int is the C library's part.
use Prim.Native.String.{String}
use effect_piano_light_contr.Base.{
  ℕ, zero, suc, ◌+◌, List, [], ◌∷◌, Option, none, some, length, set, ltb, if◌then◌else◌,
}
use effect_piano_light_contr.Base.Int.{ℤ}

-- A word that `scanf ("%d")` reads as an int, or any other. A `text` is not empty.
pub data Word : Type 0 where
  num : ℤ → Word
  text : String → Word

-- What is left to read.
abbrev pub Lines : Type 0
Lines = List (List Word)

-- `none`: the program reads an indeterminate value, or writes past the end of an array.
abbrev pub Reader : Type 0 → Type 0
Reader A = Lines → Option (A × Lines)

infixl 5 ◌>>=◌ ◌>>◌
abbrev pub ◌>>=◌ : {A B : Type 0} → Reader A → (A → Reader B) → Reader B
◌>>=◌ m f ls = elim (m ls) [ none ↦ none | some (a, rest) ↦ f a rest ]

abbrev pub ◌>>◌ : {B : Type 0} → Reader (Unit {0}) → Reader B → Reader B
m >> k = m >>= λ _. k

abbrev pub pure : {A : Type 0} → A → Reader A
pure a ls = some (a, ls)

-- `scanf ("%s")` goes past ends of lines.
unfoldable pub scan_word : Lines → Option Word × Lines
scan_word [] = (none, [])
scan_word ([] ∷ ls) = scan_word ls
scan_word ((w ∷ ws) ∷ ls) = (some w, ws ∷ ls)

-- `scanf ("%d")` leaves what is no number.
unfoldable pub scan_int : Lines → Option ℤ × Lines
scan_int [] = (none, [])
scan_int ([] ∷ ls) = scan_int ls
scan_int ((num n ∷ ws) ∷ ls) = (some n, ws ∷ ls)
scan_int ((text s ∷ ws) ∷ ls) = (none, (text s ∷ ws) ∷ ls)

-- `scanf ("%s", rubbish)`
abbrev pub skip_word : Reader (Unit {0})
skip_word ls = some (tt, (scan_word ls).1)

-- `scanf ("%s", x)`: `x` keeps its value at the end of the file.
abbrev pub read_word : Option Word → Reader (Option Word)
read_word old ls =
    let (w, rest) = scan_word ls in
    elim w [ none ↦ some (old, rest) | some v ↦ some (some v, rest) ]

-- `scanf ("%d", &x)`: `x` keeps its value where no number stands.
abbrev pub read_int : ℤ → Reader ℤ
read_int old ls =
    let (n, rest) = scan_int ls in elim n [ none ↦ some (old, rest) | some v ↦ some (v, rest) ]

-- `cin.getline (rubbish, LONGTH)`: the rest of the line is dropped.
abbrev pub skip_line : Reader (Unit {0})
skip_line [] = some (tt, [])
skip_line (l ∷ ls) = some (tt, ls)

-- `int num; scanf ("%d", &num)`: with no number to read, `num` has no value.
abbrev pub read_new : Reader ℤ
read_new ls = let (n, rest) = scan_int ls in elim n [ none ↦ none | some v ↦ some (v, rest) ]

-- `read_num`
unfoldable pub read_num : Reader ℤ
unfolding scan_word scan_int
read_num = do skip_word; n ← read_new; skip_line; pure n

-- `scanf ("%d", &xs[i])`
unfoldable pub read_elem : ℕ → List ℤ → Reader (List ℤ)
unfolding scan_int
read_elem i xs ls =
    let (n, rest) = scan_int ls in
    elim n [
      | none ↦ some (xs, rest)
      | some v ↦ if ltb i (length xs) then some (set xs i v, rest) else none
    ]

-- `for (; i < i + n; ++i) scanf ("%d", &xs[i]);`
unfoldable pub read_elems : ℕ → ℕ → List ℤ → Reader (List ℤ)
unfolding read_elem
read_elems zero i xs = pure xs
read_elems (suc n) i xs = do ys ← read_elem i xs; read_elems n (i + 1) ys
