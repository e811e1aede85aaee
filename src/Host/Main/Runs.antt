-- ===== src/Host/Main/Runs.antt =====
-- The whole run of Effect_Piano/Effect_Piano.cpp: the loop that empties the input, the rounds of the
-- main loop with the console, and `main` from its start.
use effect_piano_light_contr.Base.{
  ◌≡◌, refl, Bool, true, false, List, [], ◌∷◌, ◌++◌, inl, inr, Option, none, some, Option-cases,
  if◌then◌else◌, length,
}
use effect_piano_light_contr.Base.Int.{ℤ, pos}
use effect_piano_light_contr.Host.Text.{Lines, scan_word}
use effect_piano_light_contr.Host.State.{Host}
use effect_piano_light_contr.Host.Presets.{select_set}
use effect_piano_light_contr.Host.Midi.{Message}
use effect_piano_light_contr.Host.Serial.{Returned, returns, no_value, pending, serialopen}
use effect_piano_light_contr.Host.Devices.{get_number}
use effect_piano_light_contr.Host.Keys.{Keyboard, quotient, Round, next, left, round}
use effect_piano_light_contr.Host.Keys.InOrder.{InOrder, start-InOrder}
use effect_piano_light_contr.Host.Keys.Queue.{
  host_of, round-InOrder, Ends, Ends-bind, any-bind, nowhere, somewhere, load_set-Ends,
  load_color-Ends,
}
use effect_piano_light_contr.Host.Console.{top, Console}
use effect_piano_light_contr.Host.Console.Words.{words}
use effect_piano_light_contr.Host.Console.Handlers.{ReadsOn}
use effect_piano_light_contr.Host.Console.Session.{Calm, run_console-Calm}
use effect_piano_light_contr.Host.Console.Session
use effect_piano_light_contr.Host.Main.{
  prepare, light_up, opens_console, Turn, runs, stays, ends, fails, play, leave_console, turn, Poll,
  idle, waiting, error, drain, message, Moment, Outcome, refused, waits_on, running, closed,
  shut_down, undefined, main_loop, main_test_input, name_port, opened, with_host, World, main,
  go_on, heed,
}

-- A poll that does not end the loop: a message, or an error.
pub data IsBusy : Poll → Type 0 where
  read : {m : Message} → IsBusy (waiting m)
  ignored : IsBusy error

-- Every poll is busy.
pub data AreBusy : List Poll → Type 0 where
  done : AreBusy []
  also : {p : Poll} {ps : List Poll} → IsBusy p → AreBusy ps → AreBusy (p ∷ ps)

-- The loop that empties the input, behind polls that each find a message or an error: it does not end
-- as long as there are such polls, and ends with the first poll that finds nothing.
pub drain_lem :
    {busy : List Poll} (rest : List Poll)
    → AreBusy busy
    → (drain busy ≡ none) × (drain (busy ++ idle ∷ rest) ≡ some rest)
unfolding drain
drain_lem rest done = (refl, refl)
drain_lem rest (also read b) = drain_lem rest b
drain_lem rest (also ignored b) = drain_lem rest b

-- Where the program stands in its loop or behind it, its queue is in order.
pub data Sound : Outcome → Type 0 where
  refusing : Sound refused
  stopping : Sound waits_on
  going : {h : Host} → InOrder h → Sound (running h)
  closing : {h : Host} → InOrder h → Sound (closed h)
  halting : Sound shut_down
  lost : Sound undefined

-- What a round comes to, with the queue in order.
data SoundTurn : Turn → Type 0 where
  ran : {rest : Lines} {r : Round} → InOrder (host_of r) → SoundTurn (runs rest r)
  stayed : SoundTurn stays
  ended : SoundTurn ends
  broke : SoundTurn fails

play-Sound :
    (k : Keyboard) (m : Option Message) (typed : Lines) (h : Host)
    → InOrder h
    → SoundTurn (play k m typed h)
play-Sound k m typed h v = elim (Option-cases (round k m h)) [
  | inl e ↦ rw (e, play) broke
  | inr (r, e) ↦ rw (e, play) (ran (round-InOrder k m v e))
]

leave_console-Sound :
    (k : Keyboard) (m : Option Message) {c : Console} → Calm c → SoundTurn (leave_console k m c)
leave_console-Sound k m (Session.waiting v) = stayed
leave_console-Sound k m (Session.returned v) = play-Sound k m _ _ v
leave_console-Sound k m (Session.ended v) = ended
leave_console-Sound k m Session.broken = broke

if-SoundTurn : (b : Bool) {s t : Turn} → SoundTurn s → SoundTurn t → SoundTurn (if b then s else t)
if-SoundTurn true v w = v
if-SoundTurn false v w = w

prepare-Ends : (list typed : Lines) (h : Host) → InOrder h → Ends (prepare list typed h)
unfolding prepare
prepare-Ends list typed h v = any-bind (select_set list h.catalog typed) _ λ (c, rest).
    Ends-bind _ (load_set-Ends c.using_set (record h { catalog = c }) (record { valid = v.valid }))
      λ loaded w.
        any-bind (quotient (pos 300) loaded.settings.latency) _
          λ q. somewhere (record { valid = w.valid })

light_up-Ends : (h : Host) → InOrder h → Ends (light_up h)
unfolding light_up
light_up-Ends h v =
    Ends-bind _ (load_color-Ends h.catalog.using_set h v) λ colored w. somewhere (start-InOrder w)

module _ (scan_tenths : Lines → Option ℤ × Lines) (list : Lines) (on : ReadsOn scan_tenths) where
  turn-Sound :
      (typed : Lines) (k : Keyboard) (m : Option Message) (h : Host)
      → InOrder h
      → SoundTurn (turn scan_tenths list typed k m h)
  unfolding turn
  turn-Sound typed k m h v =
      if-SoundTurn (opens_console k)
        (leave_console-Sound k m (run_console-Calm scan_tenths list on (words typed) top typed h v))
        (play-Sound k m typed h v)

  goes_on :
      (ms : List Moment) {t : Turn}
      → SoundTurn t
      → ((typed : Lines) (h : Host) → InOrder h → Sound (main_loop scan_tenths list ms typed h))
      → Sound (go_on (main_loop scan_tenths list ms) t)
  goes_on ms (ran {r = next h} v) k = k _ h v
  goes_on ms (ran {r = left h} v) k = closing v
  goes_on ms stayed k = stopping
  goes_on ms ended k = halting
  goes_on ms broke k = lost

  -- Whatever keys are down, whatever is typed and whatever the input holds, round after round: the
  -- queue is in order in front of each round and when the loop is over.
  pub main_loop-Sound :
      (ms : List Moment) (typed : Lines) (h : Host)
      → InOrder h
      → Sound (main_loop scan_tenths list ms typed h)
  unfolding main_loop
  main_loop-Sound [] typed h v = going v
  main_loop-Sound (m ∷ ms) typed h v =
      goes_on ms (turn-Sound (typed ++ m.typed) m.keyboard (message m.poll) h v)
        (main_loop-Sound ms)

  heed-Sound :
      (ms : List Moment) (typed : Lines) (h : Host) (r : Option (List Poll))
      → InOrder h
      → Sound (heed scan_tenths list ms typed h r)
  heed-Sound ms typed h none v = stopping
  heed-Sound ms typed h (some ps) v = main_loop-Sound ms typed h v

  main_test_input-Sound :
      (typed : Lines) (ps : List Poll) (ms : List Moment) (h : Host)
      → InOrder h
      → Sound (main_test_input scan_tenths list typed ps ms h)
  unfolding main_test_input
  main_test_input-Sound typed ps ms h v = elim (Option-cases (get_number (length typed) typed)) [
    | inl e ↦ rw (e, main_test_input) stopping
    | inr ((i, rest), e) ↦ rw (e, main_test_input) (heed-Sound ms rest h (drain ps) v)
  ]

name_port-InOrder : (file : Lines) {h : Host} → InOrder h → InOrder (name_port file h)
name_port-InOrder file {h} v = elim (Option-cases (scan_word file).0) [
  | inl e ↦ rw (e, name_port) v
  | inr (w, e) ↦ rw (e, name_port) (record { valid = v.valid })
]

opened-Sound :
    (file : Lines) (after : Host → Outcome) {h : Host} (r : Returned × ℤ)
    → InOrder h
    → ((g : Host) → InOrder g → Sound (after g))
    → Sound (opened file after h r)
opened-Sound file after (returns true, kbcd) v k =
    k _ (name_port-InOrder file (record { valid = v.valid }))
opened-Sound file after (returns false, kbcd) v k = refusing
opened-Sound file after (no_value, kbcd) v k = lost
opened-Sound file after (pending, kbcd) v k = stopping

with_host-Sound :
    (after : Host → Outcome) {r : Option Host}
    → Ends r
    → ((g : Host) → InOrder g → Sound (after g))
    → Sound (with_host after r)
with_host-Sound after nowhere k = lost
with_host-Sound after (somewhere v) k = k _ v

-- From a state with the queue in order, if a read of a number in tenths leaves no more words than
-- there were: whatever the files hold, whatever is typed, and whatever the port, the keys and the
-- input do, the queue is in order in front of each round of the main loop that the program comes to,
-- and when it has left the loop.
pub main-Sound :
    (scan_tenths : Lines → Option ℤ × Lines) (w : World) {h : Host}
    → ReadsOn scan_tenths
    → InOrder h
    → Sound (main scan_tenths w h)
unfolding main
main-Sound scan_tenths w {h} on v = with_host-Sound _ (prepare-Ends w.list w.chosen h v) λ h' v'.
    opened-Sound w.serial_file _ (serialopen w.attempts h'.panel.kbcd) v' λ g u.
      with_host-Sound _ (light_up-Ends g u)
        (main_test_input-Sound scan_tenths w.list on w.typed w.polls w.moments)
