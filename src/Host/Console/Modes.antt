-- ===== src/Host/Console/Modes.antt =====
-- Commands of `con_mode` with an effect of their own: a mode that is never left, a word that is read
-- as another command, and the ranges that are kept.
use effect_piano_light_contr.Base.{
  some, ap, ◌≡◌, inl, inr, refl, ℕ, zero, suc, Bool-cases, false, List, [], ◌∷◌, Option, arith,
  Option-cases,
}
use effect_piano_light_contr.Base.Int.{ℤ, pos, ◌≤ℤ◌}
use effect_piano_light_contr.Host.Text.{Word, text, Lines, scan_word, scan_int, read_int}
use effect_piano_light_contr.Host.State.{Host}
use effect_piano_light_contr.Host.Console.{
  follow, reads, same, top, about, goes, waits, run_show, run_console, set_background, clamp,
  extended, set_extend,
}

module _ (scan_tenths : Lines → Option ℤ × Lines) (list : Lines) where
  -- After `about` the console takes whatever is typed, and does nothing: it is never left, and the
  -- state stays.
  stuck_about :
      (n : ℕ) (ls : Lines) (h : Host) → run_console scan_tenths list n about ls h ≡ waits about h
  unfolding run_console
  stuck_about zero ls h = refl
  stuck_about (suc n) ls h = elim (Option-cases (scan_word ls).0) [
    | inl e ↦ rw (e, run_console)
    | inr (w, e) ↦ rw (e, run_console) (stuck_about n (scan_word ls).1 h)
  ]

  -- Once `about` is typed at the prompt, nothing that is typed behind it has an effect: the console
  -- is not left, and the state stays, for any number of rounds.
  pub about_traps :
      (n : ℕ) (ls : Lines) (h : Host)
      → run_console scan_tenths list (suc n) top ((text "about" ∷ []) ∷ ls) h ≡ waits about h
  unfolding run_console
  about_traps n ls h = stuck_about n ([] ∷ ls) h

clamp_range : (hi : ℕ) (n : ℤ) → (pos 0 ≤ℤ clamp (pos hi) n) × (clamp (pos hi) n ≤ℤ pos hi)
clamp_range hi n = ground arith

num_extend-extended : (e : ℤ) (h : Host) → (extended e h).settings.num_extend ≡ e
unfolding extended
num_extend-extended e h = elim (Bool-cases h.settings.on_extend) [
  | inl on ↦ rw on
  | inr off ↦ rw off
]

-- Where no number stands, the old one stays.
read_int-some :
    (old : ℤ) (ls : Lines) → (n : ℤ) × (rest : Lines) × (read_int old ls ≡ some (n, rest))
read_int-some old ls = elim (Option-cases (scan_int ls).0) [
  | inl e ↦ (old, (scan_int ls).1, rw (e, read_int))
  | inr (n, e) ↦ (n, (scan_int ls).1, rw (e, read_int))
]

-- `set extend` goes back to the prompt with a number from 0 to 10, whatever is typed, and with no
-- number typed as well.
pub set_extend_range :
    (ls : Lines) (h : Host)
    → (rest : Lines) × (h' : Host) × (set_extend ls h ≡ goes top rest h')
      × (pos 0 ≤ℤ h'.settings.num_extend)
      × (h'.settings.num_extend ≤ℤ pos 10)
unfolding set_extend
set_extend_range ls h =
    let (n, rest, e) = read_int-some h.settings.num_extend ls in
    let h' : Host = extended (clamp (pos 10) n) h in
    (
      rest,
      h',
      ap (λ r. reads r (λ m left. goes top left (extended (clamp (pos 10) m) h))) e,
      rw (num_extend-extended) (clamp_range 10 n).0,
      rw (num_extend-extended) (clamp_range 10 n).1,
    )

set_background-run_show :
    (w : Word) (ws : List Word) (ls : Lines) (h : Host)
    → same w "color_default" ≡ false
    → same w "brightness" ≡ false
    → set_background ((w ∷ ws) ∷ ls) h ≡ run_show w (ws ∷ ls) h
unfolding set_background
set_background-run_show w ws ls h c b = rw (c, b)

module _ (scan_tenths : Lines → Option ℤ × Lines) (list : Lines) where
  -- `set background w`, for any word `w` but `color_default` and `brightness`, is another way to type
  -- `show w`: whatever follows, the console comes to the same.
  pub set_background_shows :
      (n : ℕ) (w : Word) (ws : List Word) (ls : Lines) (h : Host)
      → same w "color_default" ≡ false
      → same w "brightness" ≡ false
      → run_console scan_tenths list
          (suc (suc n))
          top
          ((text "set" ∷ text "background" ∷ w ∷ ws) ∷ ls)
          h
        ≡ run_console scan_tenths list (suc (suc n)) top ((text "show" ∷ w ∷ ws) ∷ ls) h
  unfolding run_console
  set_background_shows n w ws ls h c b =
      ap (follow (run_console scan_tenths list n)) (set_background-run_show w ws ls h c b)
