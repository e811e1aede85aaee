-- ===== src/Tests/Board.antt =====
-- The keys of the sketch as a board, at concrete sequences and at a piece on the piano.
use effect_piano_light_contr.Base.{
  refl, ◌≡◌, ◌==◌, ◌||◌, ◌<◌, ◌≤◌, ℕ, Bool, inl, true, false, List, [], ◌∷◌, ◌++◌, length, arith,
}
use effect_piano_light_contr.Host.Link.Fifo.{Holds}
use effect_piano_light_contr.Host.State.{Host}
use effect_piano_light_contr.Host.Keys.{Keyboard}
use effect_piano_light_contr.Host.Midi.{is_heard, has_channel}
use effect_piano_light_contr.Host.Main.{Moment, Poll, idle, waiting, running, main_loop}
use effect_piano_light_contr.Sketch.State.{Leds, Sketch, black, update}
use effect_piano_light_contr.Sketch.Serial.{bytes}
use effect_piano_light_contr.Sketch.Loop.{feed, ready}
use effect_piano_light_contr.Sketch.Keys.Paint.{painted, IsWithin}
use effect_piano_light_contr.Sketch.Keys.Board.{IsStill, SameSetup}
use effect_piano_light_contr.Sketch.Keys.Parity.{
  AreKeys, no_keys, then_key, lit_after, ever_lit, keys_by_parity,
}
use effect_piano_light_contr.Sketch.Keys.Ring.{ring_color, with_arc}
use effect_piano_light_contr.Sketch.Keys.Turning
use effect_piano_light_contr.Sketch.Keys.Turning.{AreBelow, keys_turn_ring}
use effect_piano_light_contr.System.Recital.Rounds.{
  Performs, fine, silence, unheard, moves, IsAside, AreAside, at_end, then_aside, polled,
}
use effect_piano_light_contr.System.Recital.{keys_down_are_lit}
use effect_piano_light_contr.Tests.Data.{library, library-Saturates, some_host, some_sketch}
use effect_piano_light_contr.Tests.Steps.{no_tenths}
use effect_piano_light_contr.Tests.Links.{empty_link-Holds}

some_sketch-IsStill : IsStill some_sketch
some_sketch-IsStill = record { no_rainbow = refl; no_refresh = refl; no_fading = refl }

-- Key 40 twice, and key 43 between, which reaches some of the same LEDs
some_keys-AreKeys : AreKeys some_sketch (40 ∷ 43 ∷ 40 ∷ [])
some_keys-AreKeys =
    then_key (omega arith) (omega arith) (λ e. (omega arith, omega arith))
      (then_key (omega arith) (omega arith) (λ e. (omega arith, omega arith))
        (then_key (omega arith) (omega arith) (λ e. (omega arith, omega arith)) no_keys))

abbrev dark : Leds
dark j = black

keys_by_parity_example :
    (t : Sketch) × (feed library 3 some_sketch (bytes (40 ∷ 43 ∷ 40 ∷ [])) ≡ ready t)
    × SameSetup some_sketch t
    × ((k : ℕ) → t.flag k ≡ lit_after (40 ∷ 43 ∷ 40 ∷ []) some_sketch.flag k)
    × ((j : ℕ)
        → j < 227
        → IsWithin (painted some_sketch j (ever_lit (40 ∷ 43 ∷ 40 ∷ []) some_sketch.flag) (dark j))
        → t.leds j
          ≡ painted some_sketch j (lit_after (40 ∷ 43 ∷ 40 ∷ []) some_sketch.flag) (dark j))
keys_by_parity_example =
    keys_by_parity library-Saturates some_sketch dark (40 ∷ 43 ∷ 40 ∷ []) 3 some_sketch-IsStill
      some_keys-AreKeys (omega arith) (λ j below room. refl)

-- Keys go dark at once.
abbrev brief_host : Host
brief_host = record some_host { settings = record (some_host.settings) { on_remain = false } }

abbrev untouched : Keyboard
untouched = record { down = λ k. false; capslock = false }

abbrev moment_of : Poll → Moment
moment_of p = record { keyboard = untouched; typed = []; poll = p }

-- Key 60 of the piano goes down, key 63 as well, nothing comes, a message comes that is not heard, and
-- key 60 comes up.
abbrev some_piece : List Moment
some_piece =
    moment_of (waiting (record { status = 144; data1 = 60 }))
    ∷ moment_of (waiting (record { status = 144; data1 = 63 }))
    ∷ moment_of idle
    ∷ moment_of (waiting (record { status = 254; data1 = 7 }))
    ∷ moment_of (waiting (record { status = 145; data1 = 60 }))
    ∷ []

abbrev two_keys : ℕ → Bool
two_keys k = k == 40 || k == 43

abbrev one_down : ℕ → Bool
one_down = update 40 false (update 43 true (update 40 true some_sketch.flag))

some_piece-Performs :
    Performs brief_host.settings some_sketch two_keys some_sketch.flag (polled some_piece) one_down
unfolding is_heard has_channel
some_piece-Performs =
    moves 40 true refl refl (omega arith) (omega arith) (λ e. (omega arith, omega arith)) refl refl
      (moves 43 true refl refl (omega arith) (omega arith) (λ e. (omega arith, omega arith)) refl
        refl
        (silence (
          unheard refl (
            moves 40 false refl refl (omega arith) (omega arith) (λ e. (omega arith, omega arith))
              refl refl (fine refl)))))

aside : IsAside untouched
aside = record { no_capslock = refl; no_console = refl }

some_piece-AreAside : AreAside some_piece
some_piece-AreAside =
    then_aside aside
      (then_aside aside (then_aside aside (then_aside aside (then_aside aside at_end))))

keys_down_are_lit_example :
    (g : Host) × (main_loop no_tenths [] some_piece [] brief_host ≡ running g)
    × ((out : List ℕ) × (t : Sketch) × Holds g.link [] ([] ++ out)
        × ((fuel : ℕ) → length out ≤ fuel → feed library fuel some_sketch (bytes out) ≡ ready t)
        × SameSetup some_sketch t
        × ((k : ℕ) → t.flag k ≡ one_down k)
        × ((j : ℕ)
            → j < 227
            → IsWithin (painted some_sketch j two_keys (dark j))
            → t.leds j ≡ painted some_sketch j one_down (dark j)))
keys_down_are_lit_example =
    keys_down_are_lit library-Saturates no_tenths [] some_piece [] brief_host some_sketch dark
      empty_link-Holds (record { no_rainbow = refl; no_remain = refl }) some_sketch-IsStill
      some_piece-AreAside some_piece-Performs (λ k e. cc) (λ j below room. refl)

-- Key 40 goes on and off, and key 43 on.
some_keys-AreBelow : AreBelow some_sketch (40 ∷ 43 ∷ 40 ∷ [])
some_keys-AreBelow =
    Turning.then_key (omega arith) (omega arith) (λ e. (omega arith, omega arith))
      (λ e. omega arith)
      (Turning.then_key (omega arith) (omega arith) (λ e. (omega arith, omega arith))
        (λ e. omega arith)
        (Turning.then_key (omega arith) (omega arith) (λ e. (omega arith, omega arith))
          (λ e. omega arith) Turning.no_keys))

keys_turn_ring_example :
    (t : Sketch) × (feed library 3 some_sketch (bytes (40 ∷ 43 ∷ 40 ∷ [])) ≡ ready t)
    × ((j : ℕ)
        → 227 ≤ j
        → t.leds j ≡ with_arc 0 2 (ring_color false some_sketch) some_sketch.leds j)
    × (t.circle ≡ 2)
    × (t.re ≡ false)
keys_turn_ring_example =
    keys_turn_ring library false some_sketch (40 ∷ 43 ∷ 40 ∷ []) 3 some_sketch-IsStill
      some_keys-AreBelow (omega arith) refl (inl (refl, refl)) (omega arith) (omega arith)
