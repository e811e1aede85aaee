-- ===== src/System/Asks/Rounds.antt =====
-- The rounds of the loop of `con_mode` of Effect_Piano/Effect_Piano.cpp, word by word.
use effect_piano_light_contr.Base.{
  ap, ℕ, zero, suc, ◌-◌, ◌≤◌, ◌≡◌, refl, true, false, ◌||◌, List, [], ◌∷◌, Bool, Bool-cases, inl,
  inr, Option, arith,
}
use effect_piano_light_contr.Base.Int.{ℤ}
use effect_piano_light_contr.Host.Text.{Word, text, Lines, scan_word}
use effect_piano_light_contr.Host.State.{Host}
use effect_piano_light_contr.Host.Console.{
  goes, leaves, follow, top, same, run_top, run_set, run_show, run_word, run_console,
}

-- A word that leaves the console, and one that does nothing there
abbrev pub is_exit : Word → Bool
is_exit w = same w "quit" || (same w "exit" || (same w "esc" || same w "escape"))

pub record IsIdle (w : Word) : Type 0 where
  pub no_exit : is_exit w ≡ false
  pub no_set : same w "set" ≡ false
  pub no_show : same w "show" ≡ false
  pub no_about : same w "about" ≡ false
  pub no_shut_down : same w "shut_down" ≡ false

module _ (scan_tenths : Lines → Option ℤ × Lines) (list : Lines) where
  -- `set` or `show` and the word behind it, and a word at the prompt
  pub set_rounds :
      (n : ℕ) (w : Word) (ws : List Word) (ls : Lines) (h : Host)
      → 2 ≤ n
      → run_console scan_tenths list n top ((text "set" ∷ w ∷ ws) ∷ ls) h
        ≡ follow (run_console scan_tenths list (n - 2)) (run_set scan_tenths list w (ws ∷ ls) h)
  unfolding run_console run_word run_top scan_word
  set_rounds zero w ws ls h few = absurd (omega arith)
  set_rounds (suc zero) w ws ls h few = absurd (omega arith)
  set_rounds (suc (suc n)) w ws ls h few =
      ap (λ k. follow (run_console scan_tenths list k) (run_set scan_tenths list w (ws ∷ ls) h))
        (omega arith)

  pub show_rounds :
      (n : ℕ) (w : Word) (ws : List Word) (ls : Lines) (h : Host)
      → 2 ≤ n
      → run_console scan_tenths list n top ((text "show" ∷ w ∷ ws) ∷ ls) h
        ≡ follow (run_console scan_tenths list (n - 2)) (run_show w (ws ∷ ls) h)
  unfolding run_console run_word run_top scan_word
  show_rounds zero w ws ls h few = absurd (omega arith)
  show_rounds (suc zero) w ws ls h few = absurd (omega arith)
  show_rounds (suc (suc n)) w ws ls h few =
      ap (λ k. follow (run_console scan_tenths list k) (run_show w (ws ∷ ls) h)) (omega arith)

  pub top_round :
      (n : ℕ) (w : Word) (ws : List Word) (ls : Lines) (h : Host)
      → 1 ≤ n
      → run_console scan_tenths list n top ((w ∷ ws) ∷ ls) h
        ≡ follow (run_console scan_tenths list (n - 1)) (run_top w (ws ∷ ls) h)
  unfolding run_console run_word scan_word
  top_round zero w ws ls h few = absurd (omega arith)
  top_round (suc n) w ws ls h few =
      ap (λ k. follow (run_console scan_tenths list k) (run_top w (ws ∷ ls) h)) (omega arith)

  pub no_word :
      (n : ℕ) (ls : Lines) (h : Host)
      → run_console scan_tenths list n top ([] ∷ ls) h ≡ run_console scan_tenths list n top ls h
  unfolding run_console scan_word
  no_word zero ls h = refl
  no_word (suc n) ls h = refl

pub run_top-exit :
    (w : Word) (ls : Lines) (h : Host) → is_exit w ≡ true → run_top w ls h ≡ leaves ls h
unfolding run_top
run_top-exit w ls h e = rw e refl

pub run_top-idle : (w : Word) (ls : Lines) (h : Host) → IsIdle w → run_top w ls h ≡ goes top ls h
unfolding run_top
run_top-idle w ls h idle =
    rw (idle.no_exit, idle.no_set, idle.no_show, idle.no_about, idle.no_shut_down)
      (elim (Bool-cases (same w "help")) [ inl e ↦ rw e refl | inr e ↦ rw e refl ])

pub run_show-other :
    (w : Word) (ls : Lines) (h : Host) → same w "log" ≡ false → run_show w ls h ≡ goes top ls h
unfolding run_show
run_show-other w ls h e = rw e refl
