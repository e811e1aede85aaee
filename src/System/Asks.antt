-- ===== src/System/Asks.antt =====
-- A session in the console of Effect_Piano/Effect_Piano.cpp, request by request: the sketch of
-- Effect_Piano_v1.3.0.ino stays in step.
pub mod Rounds
pub mod Prompts
use effect_piano_light_contr.Base.{
  ◌∙◌, ap, sym, ℕ, zero, suc, ◌+◌, ◌-◌, ◌%◌, ◌≤◌, ◌≡◌, ◌≢◌, refl, true, false, ◌||◌, List, [], ◌∷◌,
  Bool, Bool-cases, inl, inr, Option, none, some, if◌then◌else◌, arith,
}
use effect_piano_light_contr.Base.Int.{ℤ, pos, negsuc, low_byte, leb_ℤ, ltb_ℤ, is_zero}
use effect_piano_light_contr.Host.Text.{Word, num, text, Lines, scan_word, scan_int}
use effect_piano_light_contr.Host.State.{Host, send, write_set}
use effect_piano_light_contr.Host.Keys.{save, quotient}
use effect_piano_light_contr.Host.Console.{
  Fate, goes, leaves, follow, Console, back, top, setting, showing, same, given, clamp, extended,
  run_top, run_set, run_show, run_word, run_console, show_log, set_brightness, set_extend,
  set_background_color, set_background, set_latency, set_remain,
}
use effect_piano_light_contr.Host.Console.Words.{words}
use effect_piano_light_contr.Sketch.State.{FastLed}
use effect_piano_light_contr.System.{IsSent}
use effect_piano_light_contr.System.Agrees.{source, IsReady, Moves, Moves-trans, rests}
use effect_piano_light_contr.System.Moves.{if-Moves, quotient-some}
use effect_piano_light_contr.System.Requests.{
  save-Moves, brightness-Moves, aside-Moves, extended-Moves, remaining-Moves, IsReady-latency,
}
use effect_piano_light_contr.System.Asks.Rounds.{
  is_exit, IsIdle, set_rounds, show_rounds, top_round, no_word, run_top-exit, run_top-idle,
  run_show-other,
}
use effect_piano_light_contr.System.Asks.Prompts.{
  ComesBack, run_show-log, brightness-ComesBack, extend-ComesBack, remain-ComesBack,
  latency-ComesBack,
}

-- What is typed up to the word that leaves the console, and what is then left: nothing that would be
-- sent as a 0, at most `reach` LEDs on each side of a key, and no latency 0.
pub data Asks (scan_tenths : Lines → Option ℤ × Lines) (reach : ℕ) : Lines → Lines → Type 0 where
  blank : {ls rest : Lines} → Asks scan_tenths reach ls rest → Asks scan_tenths reach ([] ∷ ls) rest
  quits :
      {w : Word} {ws : List Word} {ls rest : Lines}
      → is_exit w ≡ true
      → ws ∷ ls ≡ rest
      → Asks scan_tenths reach ((w ∷ ws) ∷ ls) rest
  idles :
      {w : Word} {ws : List Word} {ls rest : Lines}
      → IsIdle w
      → Asks scan_tenths reach (ws ∷ ls) rest
      → Asks scan_tenths reach ((w ∷ ws) ∷ ls) rest
  asks_show :
      {w : Word} {ws : List Word} {ls rest : Lines}
      → same w "log" ≡ false
      → Asks scan_tenths reach (ws ∷ ls) rest
      → Asks scan_tenths reach ((text "show" ∷ w ∷ ws) ∷ ls) rest
  asks_log :
      {ws : List Word} {ls rest : Lines} (n : ℤ)
      → Asks scan_tenths reach (ws ∷ ls) rest
      → Asks scan_tenths reach ((text "show" ∷ text "log" ∷ num n ∷ ws) ∷ ls) rest
  asks_brightness :
      {ws : List Word} {ls rest : Lines} (n : ℤ)
      → leb_ℤ n (pos 255) ≡ true
      → Asks scan_tenths reach (ws ∷ ls) rest
      → Asks scan_tenths reach ((text "set" ∷ text "brightness" ∷ num n ∷ ws) ∷ ls) rest
  asks_extend :
      {ws : List Word} {ls rest : Lines} (n : ℤ)
      → IsSent (clamp (pos 10) n)
      → low_byte (clamp (pos 10) n) ≤ reach
      → Asks scan_tenths reach (ws ∷ ls) rest
      → Asks scan_tenths reach ((text "set" ∷ text "extend" ∷ num n ∷ ws) ∷ ls) rest
  asks_remain :
      {ws : List Word} {ls more rest : Lines} (n : ℤ)
      → scan_tenths (ws ∷ ls) ≡ (some n, more)
      → words more ≤ words (ws ∷ ls)
      → IsSent (clamp (pos 200) n)
      → Asks scan_tenths reach more rest
      → Asks scan_tenths reach ((text "set" ∷ text "remain" ∷ ws) ∷ ls) rest
  asks_latency :
      {ws : List Word} {ls rest : Lines} (n : ℤ)
      → n ≢ pos 0
      → Asks scan_tenths reach (ws ∷ ls) rest
      → Asks scan_tenths reach ((text "set" ∷ text "latency" ∷ num n ∷ ws) ∷ ls) rest

module _ (lib : FastLed) (scan_tenths : Lines → Option ℤ × Lines) (list : Lines) (reach : ℕ) where
  -- The console is left, with what is left to read.
  pub record Leaves (n : ℕ) (ls rest : Lines) (h : Host) : Type 0 where
    pub next : Host
    pub runs : run_console scan_tenths list n top ls h ≡ back rest next
    pub moves : Moves lib reach h next

  then-Leaves :
      (n m : ℕ) {ls more rest : Lines} (h : Host) {f : Fate}
      → run_console scan_tenths list n top ls h ≡ follow (run_console scan_tenths list m) f
      → (p : ComesBack lib scan_tenths list reach more h f) → Leaves m more rest p.next
      → Leaves n ls rest h
  then-Leaves n m h e p q = record {
    next = q.next;
    runs = e ∙ ap (follow (run_console scan_tenths list m)) p.runs ∙ q.runs;
    moves = Moves-trans lib reach p.moves q.moves;
  }

  pub Asks-Leaves :
      {ls rest : Lines} (n : ℕ) (h : Host)
      → Asks scan_tenths reach ls rest
      → words ls ≤ n
      → Leaves n ls rest h
  Asks-Leaves n h (blank {ls} q) enough =
      let l = Asks-Leaves n h q (omega arith) in
      record { next = l.next; runs = no_word scan_tenths list n ls h ∙ l.runs; moves = l.moves }
  Asks-Leaves n h (quits {w} {ws} {ls} e end) enough = record {
    next = h;
    runs =
        top_round scan_tenths list n w ws ls h (omega arith)
        ∙ ap (follow (run_console scan_tenths list (n - 1))) (run_top-exit w (ws ∷ ls) h e)
        ∙ ap (λ r. back r h) end;
    moves = rests lib reach h;
  }
  Asks-Leaves n h (idles {w} {ws} {ls} idle q) enough =
      then-Leaves n (n - 1) h (top_round scan_tenths list n w ws ls h (omega arith))
        (record { next = h; runs = run_top-idle w (ws ∷ ls) h idle; moves = rests lib reach h })
        (Asks-Leaves (n - 1) h q (omega arith))
  Asks-Leaves n h (asks_show {w} {ws} {ls} e q) enough =
      then-Leaves n (n - 2) h (show_rounds scan_tenths list n w ws ls h (omega arith))
        (record { next = h; runs = run_show-other w (ws ∷ ls) h e; moves = rests lib reach h })
        (Asks-Leaves (n - 2) h q (omega arith))
  Asks-Leaves n h (asks_log {ws} {ls} i q) enough =
      let p = run_show-log lib scan_tenths list reach i ls ws h in
      then-Leaves n (n - 2) h
        (show_rounds scan_tenths list n (text "log") (num i ∷ ws) ls h (omega arith)) p
        (Asks-Leaves (n - 2) p.next q (omega arith))
  Asks-Leaves n h (asks_brightness {ws} {ls} i small q) enough =
      let p = brightness-ComesBack lib scan_tenths list reach i ls ws h small in
      then-Leaves n (n - 2) h
        (set_rounds scan_tenths list n (text "brightness") (num i ∷ ws) ls h (omega arith)) p
        (Asks-Leaves (n - 2) p.next q (omega arith))
  Asks-Leaves n h (asks_extend {ws} {ls} i sent few q) enough =
      let p = extend-ComesBack lib scan_tenths list reach i ls ws h sent few in
      then-Leaves n (n - 2) h
        (set_rounds scan_tenths list n (text "extend") (num i ∷ ws) ls h (omega arith)) p
        (Asks-Leaves (n - 2) p.next q (omega arith))
  Asks-Leaves n h (asks_remain {ws} {ls} {more} i e fewer sent q) enough =
      let p = remain-ComesBack lib scan_tenths list reach i (ws ∷ ls) more h e sent in
      then-Leaves n (n - 2) h (set_rounds scan_tenths list n (text "remain") ws ls h (omega arith))
        p (Asks-Leaves (n - 2) p.next q (omega arith))
  Asks-Leaves n h (asks_latency {ws} {ls} i some_time q) enough =
      let p = latency-ComesBack lib scan_tenths list reach i ls ws h some_time in
      then-Leaves n (n - 2) h
        (set_rounds scan_tenths list n (text "latency") (num i ∷ ws) ls h (omega arith)) p
        (Asks-Leaves (n - 2) p.next q (omega arith))
