-- ===== src/Tests/Session.antt =====
-- Rounds of the main loop and a session in the console, at concrete inputs.
use effect_piano_light_contr.Base.{
  refl, ◌≡◌, ◌==◌, ◌||◌, ◌≤◌, ◌<◌, ◌++◌, ℕ, zero, suc, true, false, List, [], ◌∷◌, get_or, length,
  arith,
}
use effect_piano_light_contr.Base.Int.{pos}
use effect_piano_light_contr.Host.Link.Fifo.{Holds}
use effect_piano_light_contr.Host.Text.{Lines, num, text}
use effect_piano_light_contr.Host.State.{Host}
use effect_piano_light_contr.Host.Keys.{Keyboard, set_keys}
use effect_piano_light_contr.Host.Midi.{Message, is_heard, has_channel, on_message}
use effect_piano_light_contr.Host.Console.{goes, top, set_extend}
use effect_piano_light_contr.System.Zero.{key_becomes_extend}
use effect_piano_light_contr.Host.Main.{Moment, idle, waiting, error, running, main_loop}
use effect_piano_light_contr.Sketch.State.{Sketch}
use effect_piano_light_contr.Sketch.Serial.{bytes}
use effect_piano_light_contr.Sketch.Loop.{feed, ready, inside}
use effect_piano_light_contr.Sketch.Config.{config}
use effect_piano_light_contr.System.Agrees.{Agrees, switches, shades, source, IsReady}
use effect_piano_light_contr.System.Asks.{
  Asks, blank, quits, idles, asks_show, asks_brightness, asks_extend, asks_latency,
}
use effect_piano_light_contr.System.Session.{
  IsPlain, ArePlain, over, then_round, then_console, main_loop_in_step,
}
use effect_piano_light_contr.Tests.Data.{library, some_host, pressed}
use effect_piano_light_contr.Tests.Links.{empty_link-Holds}
use effect_piano_light_contr.Tests.Steps.{
  no_tenths, some_host-IsReady, lit_sketch, lit_sketch-Agrees,
}

abbrev key_60 : Message
key_60 = record { status = 144; data1 = 60 }

-- Shift and `>` are down.
abbrev shifted : Keyboard
shifted = record { down = λ k. k == 16 || k == 190; capslock = true }

-- A round with `C`, one with `B` and a message, one with the console, and one with `C` and an error of
-- the input
abbrev requests : Lines
requests =
    (text "set" ∷ text "brightness" ∷ num (pos 30) ∷ [])
    ∷ (text "show" ∷ text "color" ∷ [])
    ∷ (text "set" ∷ text "extend" ∷ num (pos 2) ∷ text "hello" ∷ [])
    ∷ (text "set" ∷ text "latency" ∷ num (pos 5) ∷ [])
    ∷ (text "quit" ∷ [])
    ∷ []

abbrev pub some_moments : List Moment
some_moments =
    record { keyboard = pressed b'C'; typed = []; poll = idle }
    ∷ record {
      keyboard = pressed b'B';
      typed = [];
      poll = waiting (record { status = 144; data1 = 60 });
    }
    ∷ record { keyboard = shifted; typed = requests; poll = idle }
    ∷ record { keyboard = pressed b'C'; typed = []; poll = error }
    ∷ []

-- None of the keys of the presets
pressed_no_preset :
    (code : ℕ)
    → b'Q' == code ≡ false
    → b'W' == code ≡ false
    → b'E' == code ≡ false
    → b'R' == code ≡ false
    → b'T' == code ≡ false
    → b'Y' == code ≡ false
    → (j : ℕ) → j < 6
    → (pressed code).down (get_or set_keys j 0) ≡ false
pressed_no_preset code q w e r t y zero few = q
pressed_no_preset code q w e r t y (suc zero) few = w
pressed_no_preset code q w e r t y (suc (suc zero)) few = e
pressed_no_preset code q w e r t y (suc (suc (suc zero))) few = r
pressed_no_preset code q w e r t y (suc (suc (suc (suc zero)))) few = t
pressed_no_preset code q w e r t y (suc (suc (suc (suc (suc zero))))) few = y
pressed_no_preset code q w e r t y (suc (suc (suc (suc (suc (suc j)))))) few = absurd (omega arith)

c-IsPlain : IsPlain (pressed b'C')
c-IsPlain = record {
  no_preset = pressed_no_preset b'C' refl refl refl refl refl refl;
  no_rainbow = refl;
  no_effect = refl;
  no_escape = refl;
}

b-IsPlain : IsPlain (pressed b'B')
b-IsPlain = record {
  no_preset = pressed_no_preset b'B' refl refl refl refl refl refl;
  no_rainbow = refl;
  no_effect = refl;
  no_escape = refl;
}

shifted-IsPlain : IsPlain shifted
shifted-IsPlain = record {
  no_preset = no_preset;
  no_rainbow = refl;
  no_effect = refl;
  no_escape = refl;
}
  where
    no_preset : (j : ℕ) → j < 6 → shifted.down (get_or set_keys j 0) ≡ false
    no_preset zero few = refl
    no_preset (suc zero) few = refl
    no_preset (suc (suc zero)) few = refl
    no_preset (suc (suc (suc zero))) few = refl
    no_preset (suc (suc (suc (suc zero)))) few = refl
    no_preset (suc (suc (suc (suc (suc zero))))) few = refl
    no_preset (suc (suc (suc (suc (suc (suc j)))))) few = absurd (omega arith)

requests-Asks : Asks no_tenths 3 requests ([] ∷ [])
requests-Asks = asks_brightness (pos 30) refl (
    blank (
      asks_show refl (
        blank (
          asks_extend (pos 2) (omega arith) (omega arith) (
            idles
              (record {
                no_exit = refl;
                no_set = refl;
                no_show = refl;
                no_about = refl;
                no_shut_down = refl;
              })
              (blank (asks_latency (pos 5) (λ e. cc) (blank (quits refl refl)))))))))

pub some_moments-ArePlain : ArePlain no_tenths 3 [] some_moments
some_moments-ArePlain = then_round refl c-IsPlain tt (
    then_round refl b-IsPlain (40, refl, omega arith, omega arith, omega arith)
      (then_console refl requests-Asks shifted-IsPlain tt (then_round refl c-IsPlain tt over)))

main_loop_in_step_example :
    (g : Host) × (main_loop no_tenths [] some_moments [] some_host ≡ running g)
    × IsReady 3 (source g)
    × ((out : List ℕ) × (u : Sketch) × Holds g.link [] ([] ++ out)
        × ((fuel : ℕ) → length out ≤ fuel → feed library fuel lit_sketch (bytes out) ≡ ready u)
        × Agrees (switches g) (shades g) (config u))
main_loop_in_step_example =
    main_loop_in_step library 3 no_tenths [] some_moments [] some_host lit_sketch empty_link-Holds
      some_moments-ArePlain some_host-IsReady lit_sketch-Agrees

-- `set extend 0`, and key 60 of the piano
key_becomes_extend_example :
    (g : Host) × (set_extend ((num (pos 0) ∷ []) ∷ []) some_host ≡ goes top ([] ∷ []) g)
    × (g.settings.num_extend ≡ pos 0)
    × Holds g.link [] ([] ++ 96 ∷ [])
    × (feed library 1 lit_sketch (bytes (96 ∷ [])) ≡ inside)
    × Holds (on_message key_60 g).link [] ([] ++ 96 ∷ 40 ∷ [])
    × (feed library 2 lit_sketch (bytes (96 ∷ 40 ∷ []))
        ≡ ready (record lit_sketch { extend = true; numofextend = 40 }))
unfolding is_heard has_channel
key_becomes_extend_example =
    key_becomes_extend library (pos 0) [] [] key_60 40 some_host lit_sketch empty_link-Holds refl
      (omega arith) refl refl (omega arith) (omega arith)
