-- ===== src/System/Session.antt =====
-- Rounds of the main loop of Effect_Piano/Effect_Piano.cpp with its keys and with messages: the sketch
-- of Effect_Piano_v1.3.0.ino stays in step with the settings.
use effect_piano_light_contr.Base.{
  ap, ◌∙◌, ℕ, ◌≤◌, ◌<◌, ◌≡◌, refl, Bool, true, false, ◌&&◌, List, [], ◌∷◌, ◌++◌, length, Option,
  some, get_or, if◌then◌else◌, arith,
}
use effect_piano_light_contr.Base.Int.{ℤ, pos, pos_part}
use effect_piano_light_contr.Host.Link.Fifo.{Holds}
use effect_piano_light_contr.Host.Text.{Lines}
use effect_piano_light_contr.Host.State.{Host, send}
use effect_piano_light_contr.Host.Midi.{Message, round_end}
use effect_piano_light_contr.Host.Keys.{
  Keyboard, Round, next, left, round, set_keys, preset_keys, switch_keys, ◌>>=◌,
}
use effect_piano_light_contr.Host.Keys.Runs.{preset_keys_idle}
use effect_piano_light_contr.Host.Console.{back, top, run_console}
use effect_piano_light_contr.Host.Console.Words.{words}
use effect_piano_light_contr.Host.Main.{
  opens_console, runs, play, leave_console, turn, message, Moment, running, go_on, main_loop,
}
use effect_piano_light_contr.Sketch.State.{FastLed, Sketch}
use effect_piano_light_contr.Sketch.Config.{config}
use effect_piano_light_contr.Sketch.Serial.{bytes}
use effect_piano_light_contr.Sketch.Loop.{feed, ready}
use effect_piano_light_contr.System.Agrees.{
  Agrees, switches, shades, source, IsReady, Moves, Moves-trans, rests, follows,
}
use effect_piano_light_contr.System.Asks.{Asks, Asks-Leaves}
use effect_piano_light_contr.System.Keys.{switch_keys-Moves}
use effect_piano_light_contr.System.Play.{IsPlayable}
use effect_piano_light_contr.System.Round.{round_end-Moves}

-- Neither the keys of a preset, `M` and `U`, nor ESC are down.
pub record IsPlain (k : Keyboard) : Type 0 where
  pub no_preset : (j : ℕ) → j < 6 → k.down (get_or set_keys j 0) ≡ false
  pub no_rainbow : k.down b'M' ≡ false
  pub no_effect : k.down b'U' ≡ false
  pub no_escape : k.down 27 ≡ false

-- Rounds with what is typed and not read yet in front of them: in some the console is opened, and left
-- once what is asked for there is done.
pub data ArePlain (scan_tenths : Lines → Option ℤ × Lines) (reach : ℕ)
    : Lines → List Moment → Type 0 where
  over : {typed : Lines} → ArePlain scan_tenths reach typed []
  then_round :
      {typed : Lines} {m : Moment} {ms : List Moment}
      → opens_console m.keyboard ≡ false
      → IsPlain m.keyboard
      → IsPlayable reach (message m.poll)
      → ArePlain scan_tenths reach (typed ++ m.typed) ms
      → ArePlain scan_tenths reach typed (m ∷ ms)
  then_console :
      {typed rest : Lines} {m : Moment} {ms : List Moment}
      → opens_console m.keyboard ≡ true
      → Asks scan_tenths reach (typed ++ m.typed) rest
      → IsPlain m.keyboard
      → IsPlayable reach (message m.poll)
      → ArePlain scan_tenths reach rest ms
      → ArePlain scan_tenths reach typed (m ∷ ms)

-- A round with no ESC, by a relation that what its two parts do keeps.
plain_round :
    (M : Host → Host → Type 0) (caps esc : Bool) (l h : Host) (p : Option Host)
    (q : Host → Option Host) (f : Host → Host)
    → ((g i : Host) → M h g → M g i → M h i)
    → ((g : Host) → M g (f g))
    → esc ≡ false
    → p ≡ some h
    → (g : Host) × (q h ≡ some g) × M h g
    → (g : Host) × ((if caps && esc
          then some (left l)
          else (if caps then p >>= q else some h) >>= λ h'. some (next (f h')))
        ≡ some (next g))
      × M h g
plain_round M false esc l h p q f trans k up idle (g, e, m) = (f h, refl, k h)
plain_round M true true l h p q f trans k up idle (g, e, m) = cc up
plain_round M true false l h p q f trans k up idle (g, e, m) = (
  f g,
  ap (λ o. (o >>= q) >>= λ h'. some (next (f h'))) idle
      ∙ ap (λ o. o >>= λ h'. some (next (f h'))) e,
  trans g (f g) m (k g),
)

module _ (lib : FastLed) (reach : ℕ) where
  round-Moves :
      (k : Keyboard) (m : Option Message) (h : Host)
      → IsPlain k
      → IsPlayable reach m
      → IsReady reach (source h)
      → (g : Host) × (round k m h ≡ some (next g)) × Moves lib reach h g
  unfolding round
  round-Moves k m h plain p r =
      plain_round (Moves lib reach) k.capslock (k.down 27) (send (pos 125 ∷ []) h) h
        (preset_keys k (pos_part h.catalog.num_set) 0 h) (switch_keys k) (round_end m)
        (λ g i. Moves-trans lib reach) (λ g. round_end-Moves lib reach m g p) plain.no_escape
        (preset_keys_idle k (pos_part h.catalog.num_set) 0 h (omega (arith, r.few_sets))
          plain.no_preset)
        (switch_keys-Moves lib reach k h plain.no_rainbow plain.no_effect r)

  plays :
      (k : Keyboard) (m : Option Message) (typed : Lines) (h : Host) {r : Round}
      → round k m h ≡ some r
      → play k m typed h ≡ runs typed r
  plays k m typed h e = rw (e, play)

  turn_plain :
      (scan_tenths : Lines → Option ℤ × Lines) (list typed : Lines) (k : Keyboard)
      (m : Option Message) (h : Host)
      → opens_console k ≡ false
      → turn scan_tenths list typed k m h ≡ play k m typed h
  unfolding turn
  turn_plain scan_tenths list typed k m h e = rw e

  turn_console :
      (scan_tenths : Lines → Option ℤ × Lines) (list typed : Lines) (k : Keyboard)
      (m : Option Message) (h : Host) {rest : Lines} {g : Host}
      → opens_console k ≡ true
      → run_console scan_tenths list (words typed) top typed h ≡ back rest g
      → turn scan_tenths list typed k m h ≡ play k m rest g
  unfolding turn
  turn_console scan_tenths list typed k m h opens gone = rw opens (ap (leave_console k m) gone)

  pub main_loop-Moves :
      (scan_tenths : Lines → Option ℤ × Lines) (list : Lines) (ms : List Moment) (typed : Lines)
      (h : Host)
      → ArePlain scan_tenths reach typed ms
      → IsReady reach (source h)
      → (g : Host) × (main_loop scan_tenths list ms typed h ≡ running g) × Moves lib reach h g
  unfolding main_loop
  main_loop-Moves scan_tenths list [] typed h over r = (h, refl, rests lib reach h)
  main_loop-Moves scan_tenths list (m ∷ ms) typed h (then_round no_console plain p ps) r =
      let (g, e, moves) = round-Moves m.keyboard (message m.poll) h plain p r in
      let (i, e', moves') =
        main_loop-Moves scan_tenths list ms (typed ++ m.typed) g ps (moves.ready r) in
      (
        i,
        ap (go_on (main_loop scan_tenths list ms)) (
              turn_plain scan_tenths list (typed ++ m.typed) m.keyboard (message m.poll) h
                no_console
              ∙ plays m.keyboard (message m.poll) (typed ++ m.typed) h e)
            ∙ e',
        Moves-trans lib reach moves moves',
      )
  main_loop-Moves scan_tenths list (m ∷ ms) typed h
        (then_console {rest = rest} opens asks plain p ps) r =
      let gone =
        Asks-Leaves lib scan_tenths list reach (words (typed ++ m.typed)) h asks (omega arith) in
      let (g, e, moves) =
        round-Moves m.keyboard (message m.poll) gone.next plain p (gone.moves.ready r) in
      let (i, e', moves') =
        main_loop-Moves scan_tenths list ms rest g ps (moves.ready (gone.moves.ready r)) in
      (
        i,
        ap (go_on (main_loop scan_tenths list ms)) (
              turn_console scan_tenths list (typed ++ m.typed) m.keyboard (message m.poll) h opens
                gone.runs
              ∙ plays m.keyboard (message m.poll) rest gone.next e)
            ∙ e',
        Moves-trans lib reach gone.moves (Moves-trans lib reach moves moves'),
      )

-- In a state with nothing waiting in the queue, with no rainbow on, the latency and the brightness of
-- the background not 0, at most 6 presets, at most `reach` LEDs asked for on each side of a key and no
-- argument that the keys send 0 as a byte, and a sketch that agrees with the settings: whatever keys are
-- down in the rounds of the main loop but `M`, `U`, ESC and those of the presets, whatever messages
-- come, if each is for a key that has `reach` LEDs on each side in range, and wherever the console is
-- opened, if what is typed there leaves it and sets nothing but the log, a brightness up to 255, LEDs on
-- each side of a key that are at most `reach` and not 0 as a byte, a time that is not 0 as a byte and a
-- latency that is not 0, every round has a result. The bytes that the program writes bring the sketch in
-- front of `loop ()`, with no access out of range and no division by 0, in a state that agrees with the
-- settings as they are then, their colours with them; nothing waits, and what was required of the
-- program holds again.
pub main_loop_in_step :
    (lib : FastLed) (reach : ℕ) (scan_tenths : Lines → Option ℤ × Lines) (list : Lines)
    (ms : List Moment) (typed : Lines) (h : Host) {w : List ℕ} (t : Sketch)
    → Holds h.link [] w
    → ArePlain scan_tenths reach typed ms
    → IsReady reach (source h)
    → Agrees (switches h) (shades h) (config t)
    → (g : Host) × (main_loop scan_tenths list ms typed h ≡ running g)
      × IsReady reach (source g)
      × ((out : List ℕ) × (u : Sketch) × Holds g.link [] (w ++ out)
          × ((fuel : ℕ) → length out ≤ fuel → feed lib fuel t (bytes out) ≡ ready u)
          × Agrees (switches g) (shades g) (config u))
main_loop_in_step lib reach scan_tenths list ms typed h {w} t held plain r a =
    let (g, e, moves) = main_loop-Moves lib reach scan_tenths list ms typed h plain r in
    (g, e, moves.ready r, follows lib reach moves t held r a)
