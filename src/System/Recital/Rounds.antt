-- ===== src/System/Recital/Rounds.antt =====
-- The rounds of the main loop of Effect_Piano/Effect_Piano.cpp while a piece is played on the piano and
-- no key of the computer counts.
use mathlib.Core.Path.{subst}
use effect_piano_light_contr.Base.{
  sym, ap, ◌∙◌, refl, ℕ, ◌+◌, ◌≤◌, ◌≡◌, Bool, Bool-cases, true, false, not, inl, inr, List, [], ◌∷◌,
  ◌++◌, Option, none, some, if◌then◌else◌, arith,
}
use effect_piano_light_contr.Base.Int.{ℤ, pos, ◌-ℤ◌}
use effect_piano_light_contr.Host.Text.{Lines}
use effect_piano_light_contr.Host.Settings.{Settings}
use effect_piano_light_contr.Host.State.{Host}
use effect_piano_light_contr.Host.Lights.Wire.{Pushes, send-Pushes}
use effect_piano_light_contr.Host.Midi.{
  Message, is_heard, on_message, on_poll, on_timer, cool_down, round_end,
}
use effect_piano_light_contr.Host.Keys.{Keyboard, next, round}
use effect_piano_light_contr.Host.Main.{
  opens_console, turn, message, Moment, running, go_on, runs, main_loop,
}
use effect_piano_light_contr.Sketch.State.{Sketch, update}
use effect_piano_light_contr.Sketch.Keys.Bounds.{IsInReach}
use effect_piano_light_contr.System.Agrees.{nothing_goes}
use effect_piano_light_contr.System.Play.{rounds}

-- The messages of a piece on the keys of `more`, for the sketch `s`, from the keys that are down at
-- first to those that are down at its end: a key of the piano goes down only when it is up, and comes
-- up only when it is down. `k` is the number of the key of the piano for the sketch.
pub data Performs (settings : Settings) (s : Sketch) (more : ℕ → Bool)
    : (ℕ → Bool) → List (Option Message) → (ℕ → Bool) → Type 0 where
  fine : {down down' : ℕ → Bool} → down ≡ down' → Performs settings s more down [] down'
  silence :
      {down down' : ℕ → Bool} {ms : List (Option Message)}
      → Performs settings s more down ms down'
      → Performs settings s more down (none ∷ ms) down'
  unheard :
      {down down' : ℕ → Bool} {m : Message} {ms : List (Option Message)}
      → is_heard settings m.status ≡ false
      → Performs settings s more down ms down'
      → Performs settings s more down (some m ∷ ms) down'
  moves :
      {down down' : ℕ → Bool} {m : Message} {ms : List (Option Message)} (k : ℕ) (to : Bool)
      → is_heard settings m.status ≡ true
      → m.data1 ≡ k + 20
      → 2 ≤ k
      → k ≤ 87
      → IsInReach k s
      → more k ≡ true
      → down k ≡ not to
      → Performs settings s more (update k to down) ms down'
      → Performs settings s more down (some m ∷ ms) down'

-- `M` is not down, and keys go dark at once.
pub record IsQuiet (h : Host) : Type 0 where
  pub no_rainbow : h.panel.contain_rainbow ≡ false
  pub no_remain : h.settings.on_remain ≡ false

-- What a round pushes
abbrev pub note_ints : Settings → Option Message → List ℤ
note_ints s none = []
note_ints s (some m) = if is_heard s m.status then (pos m.data1 -ℤ pos 20) ∷ [] else []

pub record Sounds (h : Host) (m : Option Message) (g : Host) : Type 0 where
  pub pushes : Pushes 0 h.link g.link (note_ints h.settings m)
  pub settings : g.settings ≡ h.settings
  pub quiet : IsQuiet g

on_message-Sounds : (m : Message) (h : Host) → IsQuiet h → Sounds h (some m) (on_message m h)
unfolding on_message
on_message-Sounds m h quiet = elim (Bool-cases (is_heard h.settings m.status)) [
  | inl e ↦ record {
    pushes = rw e (send-Pushes 0 _ h.link (omega arith));
    settings = rw e refl;
    quiet = rw e (record { no_rainbow = quiet.no_rainbow; no_remain = quiet.no_remain });
  }
  | inr e ↦ record { pushes = rw e (nothing_goes h); settings = rw e refl; quiet = rw e quiet }
]

on_poll-Sounds : (m : Option Message) (h : Host) → IsQuiet h → Sounds h m (on_poll m h)
unfolding on_poll
on_poll-Sounds none h quiet = record { pushes = nothing_goes h; settings = refl; quiet = quiet }
on_poll-Sounds (some m) h quiet = on_message-Sounds m h quiet

pub otherwise : {A : Type 0} (b : Bool) (x y : A) → b ≡ false → (if b then x else y) ≡ y
otherwise b x y e = rw e refl

timer_off : (h : Host) → IsQuiet h → on_timer h ≡ h
unfolding on_timer
timer_off h quiet = otherwise h.settings.on_remain _ h quiet.no_remain

pub round_end-Sounds : (m : Option Message) (h : Host) → IsQuiet h → Sounds h m (round_end m h)
unfolding round_end cool_down
round_end-Sounds m h quiet =
    let p =
      on_poll-Sounds m (cool_down h)
        (record { no_rainbow = quiet.no_rainbow; no_remain = quiet.no_remain }) in
    let same : round_end m h ≡ on_poll m (cool_down h) =
      otherwise h.panel.contain_rainbow _ _ quiet.no_rainbow
      ∙ timer_off (on_poll m (cool_down h)) p.quiet in
    subst (Sounds h m) (sym same)
      (record { pushes = p.pushes; settings = p.settings; quiet = p.quiet })

-- No key of the program counts, and the console is not opened.
pub record IsAside (k : Keyboard) : Type 0 where
  pub no_capslock : k.capslock ≡ false
  pub no_console : opens_console k ≡ false

pub data AreAside : List Moment → Type 0 where
  at_end : AreAside []
  then_aside :
      {m : Moment} {ms : List Moment} → IsAside m.keyboard → AreAside ms → AreAside (m ∷ ms)

-- What is polled in the rounds
abbrev pub polled : List Moment → List (Option Message)
polled [] = []
polled (m ∷ ms) = message m.poll ∷ polled ms

turn_aside :
    (scan_tenths : Lines → Option ℤ × Lines) (list typed : Lines) (k : Keyboard)
    (m : Option Message) (h : Host)
    → IsAside k
    → turn scan_tenths list typed k m h ≡ runs typed (next (round_end m h))
unfolding turn round
turn_aside scan_tenths list typed k m h aside = rw (aside.no_console, aside.no_capslock) refl

pub main_loop-rounds :
    (scan_tenths : Lines → Option ℤ × Lines) (list : Lines) (ms : List Moment) (typed : Lines)
    (h : Host)
    → AreAside ms
    → main_loop scan_tenths list ms typed h ≡ running (rounds (polled ms) h)
unfolding main_loop
main_loop-rounds scan_tenths list [] typed h at_end = refl
main_loop-rounds scan_tenths list (m ∷ ms) typed h (then_aside aside more) =
    ap (go_on (main_loop scan_tenths list ms))
      (turn_aside scan_tenths list (typed ++ m.typed) m.keyboard (message m.poll) h aside)
    ∙ main_loop-rounds scan_tenths list ms (typed ++ m.typed) (round_end (message m.poll) h) more
