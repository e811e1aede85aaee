-- ===== src/System/Recital.antt =====
-- A piece on the piano, from the messages that the main loop of Effect_Piano/Effect_Piano.cpp reads
-- to the lights of Effect_Piano_v1.3.0.ino.
pub mod Rounds
use mathlib.Core.Path.{subst}
use effect_piano_light_contr.Base.{
  sym, ap, ◌∙◌, refl, ℕ, ◌+◌, ◌*◌, ◌≤◌, ◌<◌, ◌≡◌, Bool, Bool-cases, true, false, not, inl, inr,
  List, [], ◌∷◌, ◌++◌, append_assoc, length, Option, none, some, ◌==◌, if◌then◌else◌, arith,
}
use effect_piano_light_contr.Base.Int.{ℤ, pos, ◌+ℤ◌, ◌-ℤ◌, leb_ℤ}
use effect_piano_light_contr.Host.Link.Fifo.{Holds, emits}
use effect_piano_light_contr.Host.Text.{Lines}
use effect_piano_light_contr.Host.Settings.{Settings}
use effect_piano_light_contr.Host.State.{Host, send}
use effect_piano_light_contr.Host.Lights.Wire.{Pushes, Pushes-trans, send-Pushes, emits-append}
use effect_piano_light_contr.Host.Midi.{
  Message, is_heard, on_message, on_poll, on_timer, cool_down, round_end,
}
use effect_piano_light_contr.Host.Keys.{Keyboard, next, round}
use effect_piano_light_contr.Host.Main.{
  opens_console, play, turn, message, Moment, running, go_on, runs, main_loop,
}
use effect_piano_light_contr.Sketch.State.{FastLed, Leds, Saturates, Sketch, update}
use effect_piano_light_contr.Sketch.Serial.{bytes}
use effect_piano_light_contr.Sketch.Loop.{feed, ready}
use effect_piano_light_contr.Sketch.Steps.{Steps, Steps-append, step, stop, feed-Steps}
use effect_piano_light_contr.Sketch.Keys.Bounds.{IsInReach}
use effect_piano_light_contr.Sketch.Keys.Paint.{painted, IsWithin, Covers, Covers-update}
use effect_piano_light_contr.Sketch.Keys.Board.{IsStill, SameSetup, Shines, flip, strike}
use effect_piano_light_contr.System.Agrees.{nothing_goes}
use effect_piano_light_contr.System.Play.{emits_key, rounds}
use effect_piano_light_contr.System.Recital.Rounds.{
  Performs, fine, silence, unheard, moves, IsQuiet, AreAside, polled, note_ints, round_end-Sounds,
  otherwise, main_loop-rounds,
}

-- What the rounds push, and what the sketch makes of it
record Played (lib : FastLed) (h g : Host) (s : Sketch) (base : Leds) (more down : ℕ → Bool)
    (t : Sketch) : Type 0 where
  ints : List ℤ
  pushes : Pushes 0 h.link g.link ints
  after : Sketch
  steps : Steps lib t (emits ints) after
  shines : Shines s base more down after

Played-first :
    {lib : FastLed} {h g i : Host} {s : Sketch} {base : Leds} {more down down' : ℕ → Bool}
    {t : Sketch}
    → Played lib h g s base more down t
    → ((u : Sketch) → Shines s base more down u → Played lib g i s base more down' u)
    → Played lib h i s base more down' t
Played-first {lib} p then_play =
    let q = then_play p.after p.shines in
    record {
      ints = p.ints ++ q.ints;
      pushes = Pushes-trans p.pushes q.pushes;
      after = q.after;
      steps = rw (emits-append p.ints q.ints) (Steps-append lib p.steps q.steps);
      shines = q.shines;
    }

module _ {lib : FastLed} (laws : Saturates lib) {s : Sketch} (still : IsStill s) {base : Leds}
    {more : ℕ → Bool} where
  one-Played :
      (m : Option Message) (h : Host) (t : Sketch) {down : ℕ → Bool}
      → note_ints h.settings m ≡ []
      → IsQuiet h
      → Shines s base more down t
      → Played lib h (round_end m h) s base more down t
  one-Played m h t e quiet shines = record {
    ints = [];
    pushes = rw e at ((round_end-Sounds m h quiet).pushes);
    after = t;
    steps = stop t;
    shines = shines;
  }

  key-Played :
      (m : Message) (h : Host) (t : Sketch) {down : ℕ → Bool} (k : ℕ) (to : Bool)
      → is_heard h.settings m.status ≡ true
      → m.data1 ≡ k + 20
      → 2 ≤ k
      → k ≤ 87
      → IsInReach k s
      → more k ≡ true
      → down k ≡ not to
      → Covers more down
      → IsQuiet h
      → Shines s base more down t
      → Played lib h (round_end (some m) h) s base more (update k to down) t
  key-Played m h t {down} k to heard at lo top reach may was cover quiet shines =
      let (u, obeys, done) = strike laws k lo top still reach may cover shines in
      record {
        ints = (pos m.data1 -ℤ pos 20) ∷ [];
        pushes = rw heard at ((round_end-Sounds (some m) h quiet).pushes);
        after = u;
        steps = rw (emits_key m.data1 k at (omega arith) top) (step k [] obeys (stop u));
        shines = subst (λ b. Shines s base more (update k b down) u) (not_back to was) done;
      }
    where
      not_back : (to : Bool) {b : Bool} → b ≡ not to → not b ≡ to
      not_back true e = rw e refl
      not_back false e = rw e refl

  rounds-Played :
      (settings : Settings) (down : ℕ → Bool) (ms : List (Option Message)) (h : Host) (t : Sketch)
      {down' : ℕ → Bool}
      → h.settings ≡ settings
      → IsQuiet h
      → Performs settings s more down ms down'
      → Covers more down
      → Shines s base more down t
      → Played lib h (rounds ms h) s base more down' t
  rounds-Played settings down [] h t same quiet (fine e) cover shines = record {
    ints = [];
    pushes = nothing_goes h;
    after = t;
    steps = stop t;
    shines = subst (λ d. Shines s base more d t) e shines;
  }
  rounds-Played settings down (none ∷ ms) h t same quiet (silence p) cover shines =
      let sounds = round_end-Sounds none h quiet in
      Played-first (one-Played none h t refl quiet shines) (λ u.
        rounds-Played settings down ms (round_end none h) u (sounds.settings ∙ same) sounds.quiet p
          cover)
  rounds-Played settings down (some m ∷ ms) h t same quiet (unheard e p) cover shines =
      let sounds = round_end-Sounds (some m) h quiet in
      Played-first
        (one-Played (some m) h t
          (otherwise (is_heard h.settings m.status) _ [] (ap (λ x. is_heard x m.status) same ∙ e))
          quiet shines)
        (λ u.
          rounds-Played settings down ms (round_end (some m) h) u (sounds.settings ∙ same)
            sounds.quiet p cover)
  rounds-Played settings down (some m ∷ ms) h t same quiet
        (moves k to heard at lo top reach may was p) cover shines =
      let sounds = round_end-Sounds (some m) h quiet in
      Played-first
        (key-Played m h t k to (ap (λ x. is_heard x m.status) same ∙ heard) at lo top reach may was
          cover quiet shines)
        (λ u.
          rounds-Played settings (update k to down) ms (round_end (some m) h) u
            (sounds.settings ∙ same) sounds.quiet p (Covers-update more down k to may cover))

-- If FastLED's sums and differences of bytes saturate: let nothing wait in the queue, neither a rainbow
-- nor the fading be on in the program and in the sketch, and let every LED below the ring that has room
-- for the shares of all keys of `more` show a colour with the shares of the keys added that are down.
-- In rounds of the main loop with CAPSLOCK off and the console not opened, a piece is played on keys of
-- `more`, from 2 to 87 and with all that they reach in range, in which a key goes down only when it is
-- up and comes up only when it is down, with other messages between that are not heard. Then the rounds
-- have a result; the sketch takes all that the program writes, and nothing waits; the keys that are lit
-- are those that are down at the end of the piece; only lights, flags and the ring of the sketch have
-- changed; and every such LED shows the same colour with the shares of the keys that are down then.
pub keys_down_are_lit :
    {lib : FastLed} (laws : Saturates lib) (scan_tenths : Lines → Option ℤ × Lines) (list : Lines)
    (ms : List Moment) (typed : Lines) (h : Host) {w : List ℕ} (s : Sketch) (base : Leds)
    {more down : ℕ → Bool}
    → Holds h.link [] w
    → IsQuiet h
    → IsStill s
    → AreAside ms
    → Performs h.settings s more s.flag (polled ms) down
    → Covers more s.flag
    → ((j : ℕ)
        → j < 227
        → IsWithin (painted s j more (base j))
        → s.leds j ≡ painted s j s.flag (base j))
    → (g : Host) × (main_loop scan_tenths list ms typed h ≡ running g)
      × ((out : List ℕ) × (t : Sketch) × Holds g.link [] (w ++ out)
          × ((fuel : ℕ) → length out ≤ fuel → feed lib fuel s (bytes out) ≡ ready t)
          × SameSetup s t
          × ((k : ℕ) → t.flag k ≡ down k)
          × ((j : ℕ)
              → j < 227
              → IsWithin (painted s j more (base j))
              → t.leds j ≡ painted s j down (base j)))
keys_down_are_lit {lib} laws scan_tenths list ms typed h {w} s base held quiet still aside piece
      cover shows =
    let p =
      rounds-Played laws still h.settings s.flag (polled ms) h s refl quiet piece cover
        (record { same_setup = refl; flag = refl; led = shows }) in
    (
      rounds (polled ms) h,
      main_loop-rounds scan_tenths list ms typed h aside,
      (
        emits p.ints,
        p.after,
        p.pushes.carry [] w (omega arith) held,
        λ fuel enough. feed-Steps lib fuel enough p.steps,
        p.shines.same_setup,
        λ k. ap (λ f. f k) (p.shines.flag),
        p.shines.led,
      ),
    )
