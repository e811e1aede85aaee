-- ===== src/System/PowerOn.antt =====
-- `main` of Effect_Piano/Effect_Piano.cpp from its start, and the sketch of Effect_Piano_v1.3.0.ino
-- from its `setup ()`.
pub mod Ready
pub mod Files
use mathlib.Core.Path.{subst}
use effect_piano_light_contr.Base.{
  sym, ap, ◌∙◌, refl, ℕ, ◌≤◌, ◌≡◌, List, [], ◌∷◌, ◌++◌, length, Option, some, arith,
}
use effect_piano_light_contr.Base.Int.{ℤ, pos}
use effect_piano_light_contr.Host.Link.Fifo.{Holds, emits}
use effect_piano_light_contr.Host.Text.{Lines}
use effect_piano_light_contr.Host.Settings.{Settings}
use effect_piano_light_contr.Host.Palette.{Palette}
use effect_piano_light_contr.Host.State.{Host, Catalog}
use effect_piano_light_contr.Host.Lights.{rgb, start}
use effect_piano_light_contr.Host.Lights.Wire.{
  Pushes, Pushes-trans, Pushes-fewer, start-Pushes, start_ints, start_switches_ints,
  start_background_ints, emits-append,
}
use effect_piano_light_contr.Host.Presets.{select_set}
use effect_piano_light_contr.Host.Main.{World, Moment, running, main_loop, main}
use effect_piano_light_contr.Sketch.State.{FastLed, Sketch}
use effect_piano_light_contr.Sketch.Serial.{bytes, done}
use effect_piano_light_contr.Sketch.Commands.{setup, setup_begin, setup_end, wait_start, breathe}
use effect_piano_light_contr.Sketch.Loop.{feed, ready}
use effect_piano_light_contr.Sketch.Steps.{Steps, Steps-append, feed-Steps}
use effect_piano_light_contr.Sketch.Config.{Config, config}
use effect_piano_light_contr.System.{IsSent, Configures}
use effect_piano_light_contr.System.Sections.{fresh, idle_section}
use effect_piano_light_contr.System.Start.{IsSendable, from_setup, wanted}
use effect_piano_light_contr.System.Agrees.{
  Agrees, switches, shades, shades_of, source, IsReady, Moves,
}
use effect_piano_light_contr.System.Begin.{view-start, wanted-Agrees, Agrees-start}
use effect_piano_light_contr.System.Session.{ArePlain, main_loop-Moves}
use effect_piano_light_contr.System.PowerOn.Files.{Stored, Opens, Reached, described, main_comes}
use effect_piano_light_contr.System.PowerOn.Ready.{IsReady-IsSendable}

-- The sketch behind `setup ()`, once the first 127 has come
abbrev woken : Sketch → Sketch
woken t = setup_end (breathe (setup_begin t))

setup_ends : (t : Sketch) (bs : List ℕ) → setup t (bytes (127 ∷ bs)) ≡ done (woken t) (bytes bs)
unfolding setup wait_start
setup_ends t bs = refl

-- The second 127
second_section :
    (lib : FastLed) (t : Sketch) → Configures lib (woken t) (pos 127 ∷ []) (fresh lib (config t))
unfolding setup_begin setup_end breathe
second_section lib t = idle_section lib (woken t)

-- `start` behind its first 127
abbrev behind_ints : Settings → Palette → List ℤ
behind_ints s p =
    (pos 127 ∷ [])
    ++ ((pos 89 ∷ rgb (p.color s.color_default))
        ++ (start_background_ints s p ++ start_switches_ints s))

-- The program `h` in front of `start`, and the sketch in front of `setup ()`
record Wakes (lib : FastLed) (h : Host) (t : Sketch) : Type 0 where
  pushes : Pushes 0 h.link (start h).link (start_ints h.settings h.palette)
  after : Sketch
  steps : Steps lib (woken t) (emits (behind_ints h.settings h.palette)) after
  agrees : Agrees (switches (start h)) (shades (start h)) (config after)

wakes :
    (lib : FastLed) (reach : ℕ) (h : Host) (t : Sketch)
    → IsReady reach (source h)
    → IsSent h.settings.brightness
    → Wakes lib h t
wakes lib reach h t r bright =
    let c =
      from_setup lib h.settings h.palette t (IsReady-IsSendable h r bright)
        (second_section lib t) in
    record {
      pushes = Pushes-fewer {j = 0} (omega arith) (start-Pushes h);
      after = c.after;
      steps = c.steps;
      agrees =
          Agrees-start h r.lit
            (subst (Agrees (switches h) (shades h)) (sym c.set) (wanted-Agrees h (config t) r.lit));
    }

emits_start : (s : Settings) (p : Palette) → emits (start_ints s p) ≡ 127 ∷ emits (behind_ints s p)
emits_start s p = refl

-- What the program writes up to `h`, from `start` on, brings the sketch from `setup ()` to `u`.
record Runs (lib : FastLed) (w : List ℕ) (t : Sketch) (h : Host) : Type 0 where
  out : List ℕ
  rest : List ℕ
  u : Sketch
  holds : Holds h.link [] (w ++ out)
  wakes : setup t (bytes out) ≡ done (woken t) (bytes rest)
  takes : (fuel : ℕ) → length rest ≤ fuel → feed lib fuel (woken t) (bytes rest) ≡ ready u
  agrees : Agrees (switches h) (shades h) (config u)

Runs-on :
    (lib : FastLed) (reach : ℕ) (h g : Host) {w : List ℕ} (t : Sketch)
    → Holds h.link [] w
    → Wakes lib h t
    → IsReady reach (source (start h))
    → Moves lib reach (start h) g
    → Runs lib w t g
Runs-on lib reach h g {w} t held woke r m =
    let (d, q, b) = m.answer woke.after r woke.agrees in
    let rest = emits (behind_ints h.settings h.palette) ++ emits m.ints in
    record {
      out = 127 ∷ rest;
      rest = rest;
      u = q.after;
      holds =
          subst (λ bs. Holds g.link [] (w ++ bs))
            (emits-append (start_ints h.settings h.palette) m.ints)
            ((Pushes-trans (woke.pushes) (m.pushes)).carry [] w (omega arith) held);
      wakes = setup_ends t rest;
      takes = λ fuel enough. feed-Steps lib fuel enough (Steps-append lib woke.steps q.steps);
      agrees = subst (Agrees (switches g) (shades g)) (sym q.set) b;
    }

-- The program from its start, with nothing waiting in the queue, and the sketch from its `setup ()`,
-- whatever its state. The preset that is chosen has a file of settings with the line that `print_set`
-- leaves out, with a port named and the channels within their arrays, and a file of 10 to 100 colours;
-- the port opens at the first attempt, a number is typed for the device, and the input is emptied. By
-- these files and the globals no rainbow is on, the latency and the brightness of the background are not
-- 0, there are at most 6 presets, at most `reach` LEDs are asked for on each side of a key, and neither
-- the brightness nor an argument that the keys send is 0 as a byte. Then `main` comes to its loop with
-- the switches and the colours of the files. Let keys be down in the rounds of the loop but `M`, `U`, ESC and those of
-- the presets, messages come for keys that have `reach` LEDs on each side in range, and wherever the
-- console is opened, let what is typed there leave it and set nothing but the log, a brightness up to
-- 255, LEDs on each side of a key that are at most `reach` and not 0 as a byte, a time that is not 0 as
-- a byte and a latency that is not 0. Then every
-- round has a result; the first byte ends `setup ()`, and the others bring the sketch in front of
-- `loop ()`, with no access out of range and no division by 0, in a state that agrees with the settings;
-- nothing waits, and the program is again as it was required.
pub main_in_step :
    (lib : FastLed) (reach : ℕ) (scan_tenths : Lines → Option ℤ × Lines) (w : World) (h : Host)
    {sent : List ℕ} (t : Sketch) {c : Catalog} {s : Settings} {p : Palette}
    → Holds h.link [] sent
    → (chosen : (rest : Lines) × (select_set w.list h.catalog w.chosen ≡ some (c, rest)))
    → Stored h c s p
    → (opens : Opens w) → IsReady reach (source (described h c s p))
    → IsSent s.brightness
    → ArePlain scan_tenths reach opens.left w.moments
    → (first : Host) × (g : Host) × (main scan_tenths w h
        ≡ main_loop scan_tenths w.list w.moments opens.left first)
      × (switches first ≡ switches (described h c s p))
      × (shades first ≡ shades (described h c s p))
      × (main scan_tenths w h ≡ running g)
      × IsReady reach (source g)
      × ((out : List ℕ) × (rest : List ℕ) × (woke : Sketch) × (u : Sketch) × Holds g.link []
            (sent ++ out)
          × (setup t (bytes out) ≡ done woke (bytes rest))
          × ((fuel : ℕ) → length rest ≤ fuel → feed lib fuel woke (bytes rest) ≡ ready u)
          × Agrees (switches g) (shades g) (config u))
main_in_step lib reach scan_tenths w h {sent} t held chosen found opens r bright plain =
    let (at, comes) = main_comes scan_tenths w h chosen found opens r.slow in
    let lit_ready = at.ready reach r in
    let same = view-start at.lit lit_ready.lit in
    let start_ready = subst (IsReady reach) (sym (ap (λ v. v.1) same)) lit_ready in
    let (g, e, m) =
      main_loop-Moves lib reach scan_tenths w.list w.moments opens.left (start at.lit) plain
        start_ready in
    let bright_lit = subst (λ v. IsSent v.brightness) (sym at.has_switches) bright in
    let run =
      Runs-on lib reach at.lit g t (subst (λ l. Holds l [] sent) (sym at.link) held)
        (wakes lib reach at.lit t lit_ready bright_lit) start_ready m in
    (
      start at.lit,
      g,
      comes,
      ap (λ v. v.0) same ∙ at.has_switches,
      ap (λ v. shades_of v.1) same ∙ at.has_shades reach r,
      comes ∙ e,
      m.ready start_ready,
      (run.out, run.rest, woken t, run.u, run.holds, run.wakes, run.takes, run.agrees),
    )
