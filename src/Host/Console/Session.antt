-- ===== src/Host/Console/Session.antt =====
-- A session in the console: it keeps the queue in order, and as many rounds as words are enough.
use effect_piano_light_contr.Base.{
  sym, ℕ, zero, suc, ◌≤◌, ◌≡◌, refl, inl, inr, Option, Option-cases, arith,
}
use effect_piano_light_contr.Base.Int.{ℤ}
use effect_piano_light_contr.Host.Text.{Lines, scan_word}
use effect_piano_light_contr.Host.State.{Host}
use effect_piano_light_contr.Host.Keys.InOrder.{InOrder}
use effect_piano_light_contr.Host.Console.{
  Mode, Fate, Console, waits, back, exited, failed, follow, run_console,
}
use effect_piano_light_contr.Host.Console.Words.{words, words-scan_word, no_words}
use effect_piano_light_contr.Host.Console.Handlers.{Keeps, goes_on, left, ReadsOn, run_word-Keeps}
use effect_piano_light_contr.Host.Console.Handlers

-- Where the console stands, the queue is in order.
pub data Calm : Console → Type 0 where
  waiting : {mode : Mode} {h : Host} → InOrder h → Calm (waits mode h)
  returned : {rest : Lines} {h : Host} → InOrder h → Calm (back rest h)
  ended : {h : Host} → InOrder h → Calm (exited h)
  broken : Calm failed

module _ (scan_tenths : Lines → Option ℤ × Lines) (list : Lines) (on : ReadsOn scan_tenths) where
  follow-Calm :
      {m : ℕ} (loop : Mode → Lines → Host → Console) {f : Fate}
      → ((mode : Mode) (ls : Lines) (h : Host) → InOrder h → Calm (loop mode ls h))
      → Keeps m f
      → Calm (follow loop f)
  follow-Calm loop keep (goes_on few v) = keep _ _ _ v
  follow-Calm loop keep (left few v) = returned v
  follow-Calm loop keep (Handlers.exited v) = ended v
  follow-Calm loop keep Handlers.failed = broken

  -- Whatever is typed in the console, for any number of rounds: from a state with the queue in order
  -- the console comes to one with the queue in order.
  pub run_console-Calm :
      (n : ℕ) (mode : Mode) (ls : Lines) (h : Host)
      → InOrder h
      → Calm (run_console scan_tenths list n mode ls h)
  unfolding run_console
  run_console-Calm zero mode ls h v = waiting v
  run_console-Calm (suc n) mode ls h v = elim (Option-cases (scan_word ls).0) [
    | inl e ↦ rw (e, run_console) (waiting v)
    | inr (cmd, e) ↦
        rw (e, run_console)
          (follow-Calm (run_console scan_tenths list n) (run_console-Calm n) (
            run_word-Keeps scan_tenths list on (words (scan_word ls).1) mode cmd (scan_word ls).1 h
              (omega arith) v))
  ]

  -- With no word left the console waits.
  no_more :
      (n : ℕ) (mode : Mode) (ls : Lines) (h : Host)
      → words ls ≤ 0
      → run_console scan_tenths list n mode ls h ≡ waits mode h
  unfolding run_console
  no_more zero mode ls h few = refl
  no_more (suc n) mode ls h few = rw (no_words ls few, run_console)

  follow_fuel :
      {m : ℕ} (a b : Mode → Lines → Host → Console) {f : Fate}
      → ((mode : Mode) (ls : Lines) (h : Host)
          → words ls ≤ m
          → InOrder h
          → a mode ls h ≡ b mode ls h)
      → Keeps m f
      → follow a f ≡ follow b f
  follow_fuel a b same (goes_on few v) = same _ _ _ few v
  follow_fuel a b same (left few v) = refl
  follow_fuel a b same (Handlers.exited v) = refl
  follow_fuel a b same Handlers.failed = refl

  -- As many rounds as words are enough: with more rounds the console comes to the same.
  run_console_fuel :
      (n k : ℕ) (mode : Mode) (ls : Lines) (h : Host)
      → InOrder h
      → words ls ≤ n
      → words ls ≤ k
      → run_console scan_tenths list n mode ls h ≡ run_console scan_tenths list k mode ls h
  unfolding run_console
  run_console_fuel zero k mode ls h v few more = sym (no_more k mode ls h few)
  run_console_fuel (suc n) zero mode ls h v few more = no_more (suc n) mode ls h more
  run_console_fuel (suc n) (suc k) mode ls h v few more = elim (Option-cases (scan_word ls).0) [
    | inl e ↦ rw (e, run_console)
    | inr (cmd, e) ↦
        let fewer = words-scan_word ls e in
        rw (e, run_console)
          (follow_fuel (run_console scan_tenths list n) (run_console scan_tenths list k)
            (λ mode' ls' h' few' v'.
              run_console_fuel n k mode' ls' h' v' (omega arith) (omega arith))
            (run_word-Keeps scan_tenths list on (words (scan_word ls).1) mode cmd (scan_word ls).1 h
              (omega arith) v))
  ]
