-- ===== src/Host/Console/Words.antt =====
-- How many words are left to read in the console.
use effect_piano_light_contr.Base.{
  ℕ, zero, suc, ◌+◌, ◌≤◌, ◌<◌, ◌≡◌, refl, inl, inr, Option, none, some, Option-cases, List, [], ◌∷◌,
  length, arith,
}
use effect_piano_light_contr.Base.Int.{ℤ}
use effect_piano_light_contr.Host.Text.{
  Word, num, text, Lines, scan_word, scan_int, read_int, read_elem, read_elems,
}

abbrev pub words : Lines → ℕ
words [] = 0
words (l ∷ ls) = length l + words ls

pub words-scan_word-le : (ls : Lines) → words (scan_word ls).1 ≤ words ls
unfolding scan_word
words-scan_word-le [] = omega arith
words-scan_word-le ([] ∷ ls) = omega (arith, words-scan_word-le ls)
words-scan_word-le ((w ∷ ws) ∷ ls) = omega arith

-- A word that is read is one word fewer.
pub words-scan_word :
    (ls : Lines) {w : Word} → (scan_word ls).0 ≡ some w → words (scan_word ls).1 < words ls
unfolding scan_word
words-scan_word [] h = cc
words-scan_word ([] ∷ ls) h = omega (arith, words-scan_word ls h)
words-scan_word ((w ∷ ws) ∷ ls) h = omega arith

pub no_words : (ls : Lines) → words ls ≤ 0 → (scan_word ls).0 ≡ none
unfolding scan_word
no_words [] h = refl
no_words ([] ∷ ls) h = no_words ls (omega arith)
no_words ((w ∷ ws) ∷ ls) h = absurd (omega arith)

pub words-scan_int-le : (ls : Lines) → words (scan_int ls).1 ≤ words ls
unfolding scan_int
words-scan_int-le [] = omega arith
words-scan_int-le ([] ∷ ls) = omega (arith, words-scan_int-le ls)
words-scan_int-le ((num n ∷ ws) ∷ ls) = omega arith
words-scan_int-le ((text s ∷ ws) ∷ ls) = omega arith

pub words-read_int-le :
    (old : ℤ) (ls : Lines) {n : ℤ} {rest : Lines}
    → read_int old ls ≡ some (n, rest)
    → words rest ≤ words ls
words-read_int-le old ls h = elim (Option-cases (scan_int ls).0) [
  | inl e ↦ ground (arith, words-scan_int-le ls)
  | inr (n, e) ↦ ground (arith, words-scan_int-le ls)
]

words-read_elem-le :
    (i : ℕ) (xs : List ℤ) (ls : Lines) {ys : List ℤ} {rest : Lines}
    → read_elem i xs ls ≡ some (ys, rest)
    → words rest ≤ words ls
unfolding read_elem
words-read_elem-le i xs ls h = elim (Option-cases (scan_int ls).0) [
  | inl e ↦ ground (arith, words-scan_int-le ls)
  | inr (n, e) ↦ ground (arith, words-scan_int-le ls)
]

pub >>=-inv :
    {A B : Type 0} (m : Option (A × Lines)) (f : A → Lines → Option (B × Lines)) {b : B}
    {rest : Lines}
    → elim m [ none ↦ none | some (a, ls) ↦ f a ls ] ≡ some (b, rest)
    → (a : A) × (ls : Lines) × (m ≡ some (a, ls)) × (f a ls ≡ some (b, rest))
>>=-inv none f h = cc
>>=-inv (some (a, ls)) f h = (a, ls, refl, h)

pub words-read_elems-le :
    (n i : ℕ) (xs : List ℤ) (ls : Lines) {ys : List ℤ} {rest : Lines}
    → read_elems n i xs ls ≡ some (ys, rest)
    → words rest ≤ words ls
unfolding read_elems
words-read_elems-le zero i xs ls h = ground arith
words-read_elems-le (suc n) i xs ls h =
    let (ys, mid, e, f) = >>=-inv (read_elem i xs ls) (λ ys. read_elems n (i + 1) ys) h in
    omega (arith, words-read_elem-le i xs ls e, words-read_elems-le n (i + 1) ys mid f)
