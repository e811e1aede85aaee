-- ===== src/Host/Main.antt =====
-- `main` and `main_test_input` of Effect_Piano/Effect_Piano.cpp: the start of the program, the
-- opening of the MIDI input, and the main loop with the console.
pub mod Runs
use effect_piano_light_contr.Base.{
  ℕ, List, [], ◌∷◌, ◌++◌, length, Bool, true, false, ◌&&◌, ◌||◌, Option, none, some, if◌then◌else◌,
}
use effect_piano_light_contr.Base.Int.{ℤ, pos}
use effect_piano_light_contr.Host.Text.{Lines, scan_word}
use effect_piano_light_contr.Host.State.{Host, Catalog}
use effect_piano_light_contr.Host.Lights.{start}
use effect_piano_light_contr.Host.Presets.{select_set, load_set, load_color}
use effect_piano_light_contr.Host.Midi.{Message}
use effect_piano_light_contr.Host.Keys.{Keyboard, quotient, Round, next, left, round, ◌>>=◌}
use effect_piano_light_contr.Host.Console.Words.{words}
use effect_piano_light_contr.Host.Devices.{get_number}
use effect_piano_light_contr.Host.Serial.{Attempt, Returned, returns, no_value, pending, serialopen}
use effect_piano_light_contr.Host.Console.{Console, top, waits, back, exited, failed, run_console}

-- `select_set (); read_set (using_set); cdplus = 300 / latency;` from `setting_list.txt` and what is
-- typed.
abbrev pub load_chosen : Host → Catalog × Lines → Option Host
load_chosen h (c, rest) = do
  loaded ← load_set c.using_set (record h { catalog = c })
  q ← quotient (pos 300) loaded.settings.latency
  some (record loaded { panel = record (loaded.panel) { cdplus = q } })

unfoldable pub prepare : Lines → Lines → Host → Option Host
unfolding select_set load_set quotient
prepare list typed h = select_set list h.catalog typed >>= load_chosen h

-- `read_color (using_set); start (using_set);`, once the port is open.
unfoldable pub light_up : Host → Option Host
unfolding load_color
light_up h = load_color h.catalog.using_set h >>= λ colored. some (start colored)

-- Shift and `>` open the console.
abbrev pub opens_console : Keyboard → Bool
opens_console k = (k.down 16 || k.down 160) && k.down 190

-- What a round comes to, with what is typed and not read yet; `stays` is in the console, with all
-- that is typed used up.
pub data Turn : Type 0 where
  runs : Lines → Round → Turn
  stays : Turn
  ends : Turn
  fails : Turn

-- The round behind the check for the console.
abbrev pub play : Keyboard → Option Message → Lines → Host → Turn
play k m typed h = elim (round k m h) [ none ↦ fails | some r ↦ runs typed r ]

abbrev pub leave_console : Keyboard → Option Message → Console → Turn
leave_console k m (waits mode h) = stays
leave_console k m (back rest h) = play k m rest h
leave_console k m (exited h) = ends
leave_console k m failed = fails

unfoldable pub turn :
    (Lines → Option ℤ × Lines) → Lines → Lines → Keyboard → Option Message → Host → Turn
unfolding run_console round
turn scan_tenths list typed k m h =
    if opens_console k
    then leave_console k m (run_console scan_tenths list (words typed) top typed h)
    else play k m typed h

-- What a call of `Pm_Poll` returns: FALSE, TRUE with what `Pm_Read` then reads, or an error value,
-- which is not 0.
pub data Poll : Type 0 where
  idle : Poll
  waiting : Message → Poll
  error : Poll

-- `while (Pm_Poll (midi)) Pm_Read (midi, buffer, 1);` `none`: the polls that are given end inside.
unfoldable pub drain : List Poll → Option (List Poll)
drain [] = none
drain (idle ∷ ps) = some ps
drain (waiting m ∷ ps) = drain ps
drain (error ∷ ps) = drain ps

-- `status == TRUE`
abbrev pub message : Poll → Option Message
message idle = none
message (waiting m) = some m
message error = none

-- What a round of the main loop meets: the keys, what is typed, and what `Pm_Poll` would return.
pub record Moment : Type 0 where
  pub keyboard : Keyboard
  pub typed : Lines
  pub poll : Poll

-- Where the program stands: it was refused the port, it waits for the port, for a number or in the
-- console, it is in front of a round of its loop, it has closed the input and returns, it was shut
-- down, or it has left what C defines.
pub data Outcome : Type 0 where
  refused : Outcome
  waits_on : Outcome
  running : Host → Outcome
  closed : Host → Outcome
  shut_down : Outcome
  undefined : Outcome

-- Behind a round: the loop goes on with what is not read yet, or `break` closes the input.
abbrev pub go_on : (Lines → Host → Outcome) → Turn → Outcome
go_on loop (runs rest (next h)) = loop rest h
go_on loop (runs rest (left h)) = closed h
go_on loop stays = waits_on
go_on loop ends = shut_down
go_on loop fails = undefined

-- The main loop, with what is typed and not read yet.
unfoldable pub main_loop : (Lines → Option ℤ × Lines) → Lines → List Moment → Lines → Host → Outcome
unfolding turn
main_loop scan_tenths list [] typed h = running h
main_loop scan_tenths list (m ∷ ms) typed h =
    go_on (main_loop scan_tenths list ms)
      (turn scan_tenths list (typed ++ m.typed) m.keyboard (message m.poll) h)

-- The loop that empties the input, and the main loop behind it.
abbrev pub heed :
    (Lines → Option ℤ × Lines) → Lines → List Moment → Lines → Host → Option (List Poll) → Outcome
heed scan_tenths list moments typed h none = waits_on
heed scan_tenths list moments typed h (some _) = main_loop scan_tenths list moments typed h

-- The number of the device is PortMidi's affair; an error of `Pm_OpenInput` is not looked at.
unfoldable pub main_test_input :
    (Lines → Option ℤ × Lines) → Lines → Lines → List Poll → List Moment → Host → Outcome
unfolding main_loop
main_test_input scan_tenths list typed polls moments h = elim (get_number (length typed) typed) [
  | none ↦ waits_on
  | some (i, rest) ↦ heed scan_tenths list moments rest h (drain polls)
]

-- `scanf ("%s", &serialname)` from `serial_name.txt`
abbrev pub name_port : Lines → Host → Host
name_port file h = elim (scan_word file).0 [
  | none ↦ h
  | some w ↦ record h { settings = record (h.settings) { serial_name = some w } }
]

-- `if (serialopen () == FALSE) return 0;`, and what `after` does with the globals.
abbrev pub opened : Lines → (Host → Outcome) → Host → Returned × ℤ → Outcome
opened file after h (returns true, kbcd) =
    after (name_port file (record h { panel = record (h.panel) { kbcd = kbcd } }))
opened file after h (returns false, kbcd) = refused
opened file after h (no_value, kbcd) = undefined
opened file after h (pending, kbcd) = waits_on

-- What comes after, where there is a result.
abbrev pub with_host : (Host → Outcome) → Option Host → Outcome
with_host after none = undefined
with_host after (some h) = after h

-- What `main` finds: `setting_list.txt`, `serial_name.txt`, what is typed for the number of the
-- preset and for that of the device, the calls of `CreateFile`, the polls before the loop, and the
-- rounds of the loop.
pub record World : Type 0 where
  pub list : Lines
  pub serial_file : Lines
  pub chosen : Lines
  pub typed : Lines
  pub attempts : List Attempt
  pub polls : List Poll
  pub moments : List Moment

unfoldable pub main : (Lines → Option ℤ × Lines) → World → Host → Outcome
unfolding prepare light_up serialopen main_test_input
main scan_tenths w h =
    with_host
      (λ h'.
        opened w.serial_file
          (λ g.
            with_host (main_test_input scan_tenths w.list w.typed w.polls w.moments) (light_up g))
          h' (serialopen w.attempts h'.panel.kbcd))
      (prepare w.list w.chosen h)

-- `return 0;` without the port, and behind the main loop. `none`: `main` does not return.
abbrev pub returned : Outcome → Option ℤ
returned refused = some (pos 0)
returned (closed h) = some (pos 0)
returned _ = none
