-- ===== src/System/Asks/Prompts.antt =====
-- The requests in the console of Effect_Piano/Effect_Piano.cpp, up to the next prompt.
use effect_piano_light_contr.Base.{
  ◌∙◌, sym, ℕ, ◌≤◌, ◌≡◌, ◌≢◌, refl, true, List, ◌∷◌, Option, some, if◌then◌else◌, arith,
}
use effect_piano_light_contr.Base.Int.{ℤ, pos, negsuc, low_byte, leb_ℤ, ltb_ℤ}
use effect_piano_light_contr.Host.Text.{Word, num, text, Lines, scan_int}
use effect_piano_light_contr.Host.State.{Host}
use effect_piano_light_contr.Host.Console.{
  Fate, goes, top, clamp, run_set, run_show, show_log, set_brightness, set_extend, set_latency,
  set_remain,
}
use effect_piano_light_contr.Sketch.State.{FastLed}
use effect_piano_light_contr.System.{IsSent}
use effect_piano_light_contr.System.Agrees.{Moves}
use effect_piano_light_contr.System.Moves.{if-Moves, quotient-some}
use effect_piano_light_contr.System.Requests.{
  save-Moves, brightness-Moves, aside-Moves, extended-Moves, remaining-Moves, IsReady-latency,
}

-- The brightness that is sent
bright :
    (n : ℤ)
    → leb_ℤ n (pos 255) ≡ true
    → (let b : ℤ = if ltb_ℤ n (pos 10) then pos 10 else n in IsSent b × (leb_ℤ b (pos 255) ≡ true))
bright (pos n) small = ground arith
bright (negsuc n) small = ground arith

module _ (lib : FastLed) (scan_tenths : Lines → Option ℤ × Lines) (list : Lines) (reach : ℕ) where
  -- The prompt comes back with what is left to read, and with a state that the sketch follows.
  pub record ComesBack (more : Lines) (h : Host) (f : Fate) : Type 0 where
    pub next : Host
    pub runs : f ≡ goes top more next
    pub moves : Moves lib reach h next

  pub run_show-log :
      (n : ℤ) (ls : Lines) (ws : List Word) (h : Host)
      → ComesBack (ws ∷ ls) h (run_show (text "log") ((num n ∷ ws) ∷ ls) h)
  unfolding run_show show_log scan_int
  run_show-log n ls ws h = record {
    next = _;
    runs = refl;
    moves = save-Moves lib reach (aside-Moves lib reach refl refl refl (λ r. r));
  }

  pub brightness-ComesBack :
      (n : ℤ) (ls : Lines) (ws : List Word) (h : Host)
      → leb_ℤ n (pos 255) ≡ true
      → ComesBack (ws ∷ ls) h (run_set scan_tenths list (text "brightness") ((num n ∷ ws) ∷ ls) h)
  unfolding run_set set_brightness scan_int
  brightness-ComesBack n ls ws h small = record {
    next = _;
    runs = refl;
    moves =
        let b : ℤ = if ltb_ℤ n (pos 10) then pos 10 else n in
        if-Moves lib reach (leb_ℤ b (pos 255))
          (λ _.
            save-Moves lib reach
              (save-Moves lib reach (brightness-Moves lib reach b h (bright n small).0)))
          (λ large. absurd (cc (sym (bright n small).1 ∙ large)));
  }

  pub extend-ComesBack :
      (n : ℤ) (ls : Lines) (ws : List Word) (h : Host)
      → IsSent (clamp (pos 10) n)
      → low_byte (clamp (pos 10) n) ≤ reach
      → ComesBack (ws ∷ ls) h (run_set scan_tenths list (text "extend") ((num n ∷ ws) ∷ ls) h)
  unfolding run_set set_extend scan_int
  extend-ComesBack n ls ws h sent few = record {
    next = _;
    runs = refl;
    moves = extended-Moves lib reach (clamp (pos 10) n) h sent few;
  }

  pub remain-ComesBack :
      (n : ℤ) (ls more : Lines) (h : Host)
      → scan_tenths ls ≡ (some n, more)
      → IsSent (clamp (pos 200) n)
      → ComesBack more h (run_set scan_tenths list (text "remain") ls h)
  unfolding run_set set_remain
  remain-ComesBack n ls more h e sent = record {
    next = _;
    runs = rw e refl;
    moves = remaining-Moves lib reach (clamp (pos 200) n) h sent;
  }

  pub latency-ComesBack :
      (n : ℤ) (ls : Lines) (ws : List Word) (h : Host)
      → n ≢ pos 0
      → ComesBack (ws ∷ ls) h (run_set scan_tenths list (text "latency") ((num n ∷ ws) ∷ ls) h)
  unfolding run_set set_latency run_show scan_int
  latency-ComesBack n ls ws h some_time =
      let (q, e) = quotient-some (pos 300) n some_time in
      record {
        next = record h {
          settings = record (h.settings) { latency = n };
          panel = record (h.panel) { cdplus = q };
        };
        runs = rw e refl;
        moves = aside-Moves lib reach refl refl refl (IsReady-latency lib reach n h some_time);
      }
