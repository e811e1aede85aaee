-- ===== src/System/Begin.antt =====
-- `start` of Effect_Piano/Effect_Piano.cpp brings the sketch of Effect_Piano_v1.3.0.ino in step, so
-- that the rounds of the main loop can go on from there.
use mathlib.Core.Path.{subst}
use effect_piano_light_contr.Base.{
  ap, ◌∙◌, sym, inl, ℕ, ◌≤◌, ◌≡◌, refl, Bool, true, false, List, [], ◌∷◌, ◌++◌, length, arith,
}
use effect_piano_light_contr.Base.Int.{pos, is_zero}
use effect_piano_light_contr.Host.Link.Fifo.{Holds, emits}
use effect_piano_light_contr.Host.Settings.{Settings}
use effect_piano_light_contr.Host.State.{Host, send}
use effect_piano_light_contr.Host.Lights.{
  refresh_bg, refresh_or_off, start_color, start_background, start_switches, start,
}
use effect_piano_light_contr.Host.Lights.Wire.{
  Pushes-trans, Pushes-fewer, send-Pushes, start-Pushes, start_ints,
}
use effect_piano_light_contr.Sketch.State.{FastLed, Sketch}
use effect_piano_light_contr.Sketch.Config.{Config, config}
use effect_piano_light_contr.Sketch.Serial.{bytes}
use effect_piano_light_contr.Sketch.Loop.{feed, ready}
use effect_piano_light_contr.Sketch.Steps.{feed-Steps}
use effect_piano_light_contr.System.Start.{IsSendable, wanted, start_section}
use effect_piano_light_contr.System.Mixing.{has_background}
use effect_piano_light_contr.System.Agrees.{
  Agrees, Switches, switches, shades, shades_of, Source, source, IsReady, mixed_host, mix_lit,
}

-- What the keys need of the program
abbrev pub view : Host → Switches × Source
view h = (switches h, source h)

view-refresh_or_off : (on : Bool) (h : Host) → view (refresh_or_off true on h) ≡ view h
unfolding refresh_or_off refresh_bg
view-refresh_or_off true h = refl
view-refresh_or_off false h = refl

view-start_background :
    (h : Host) → is_zero h.settings.bright_background ≡ false → view (start_background h) ≡ view h
unfolding start_background
view-start_background h e =
    ap (λ (done, mixed). view (refresh_or_off done mixed.settings.on_background mixed))
      (mix_lit h e)
    ∙ view-refresh_or_off h.settings.on_background (mixed_host h)

pub view-start : (h : Host) → is_zero h.settings.bright_background ≡ false → view (start h) ≡ view h
unfolding start start_switches start_color
view-start h e = view-start_background (start_color h) e

pub has_background-lit :
    (s : Settings) → is_zero s.bright_background ≡ false → has_background s ≡ s.on_background
has_background-lit s e = rw e

pub wanted-Agrees :
    (h : Host) (c : Config)
    → is_zero h.settings.bright_background ≡ false
    → Agrees (switches h) (shades h) (wanted h.settings h.palette c)
wanted-Agrees h c e =
    let on = has_background-lit h.settings e in
    record {
      circle = refl;
      ends = refl;
      brightness = refl;
      extend = refl;
      extend_count = λ x. rw x;
      remain = refl;
      remain_time = λ x. rw x;
      background = on;
      back_lit = λ x. rw (e, x) (refl, refl, refl);
      keys_lit = λ x. rw (e, x) (refl, refl, refl);
      keys_unlit = λ x. inl (rw (e, x) (refl, refl, refl));
    }

-- What the program is in step with is the same behind `start`.
pub Agrees-start :
    (h : Host) {c : Config}
    → is_zero h.settings.bright_background ≡ false
    → Agrees (switches h) (shades h) c
    → Agrees (switches (start h)) (shades (start h)) c
Agrees-start h {c} e =
    subst (λ (v : Switches × Source). Agrees v.0 (shades_of v.1) c) (sym (view-start h e))

-- `pta (125); push (); start (…);`, as the program selects a preset, with nothing waiting in the queue,
-- no rainbow on, the latency and the brightness of the background not 0, at most 6 presets, at most
-- `reach` LEDs asked for on each side of a key, and no argument that the keys or `start` send 0 as a
-- byte: the bytes bring the sketch, whatever its state, in front of `loop ()` in a state that agrees
-- with the switches and the colours of the settings; nothing waits, and what was required of the program holds again,
-- but for what `start` sends.
pub start_in_step :
    (lib : FastLed) (reach : ℕ) (h : Host) {w : List ℕ} (t : Sketch)
    → Holds h.link [] w
    → IsReady reach (source h)
    → IsSendable h.settings h.palette
    → IsReady reach (source (start (send (pos 125 ∷ []) h)))
      × ((out : List ℕ) × (u : Sketch) × Holds (start (send (pos 125 ∷ []) h)).link [] (w ++ out)
          × ((fuel : ℕ) → length out ≤ fuel → feed lib fuel t (bytes out) ≡ ready u)
          × Agrees
              (switches (start (send (pos 125 ∷ []) h)))
              (shades (start (send (pos 125 ∷ []) h)))
              (config u))
start_in_step lib reach h {w} t held r sendable =
    let same = view-start (send (pos 125 ∷ []) h) r.lit in
    let p =
      Pushes-trans (send-Pushes 0 (pos 125 ∷ []) h.link (omega arith))
        (Pushes-fewer {j = 0} (omega arith) (start-Pushes (send (pos 125 ∷ []) h))) in
    let c = start_section lib h.settings h.palette t sendable in
    (
      subst (IsReady reach) (sym (ap (λ v. v.1) same)) r,
      (
        emits ((pos 125 ∷ []) ++ start_ints h.settings h.palette),
        c.after,
        p.carry [] w (omega arith) held,
        λ fuel enough. feed-Steps lib fuel enough c.steps,
        Agrees-start (send (pos 125 ∷ []) h) r.lit
            (subst (Agrees (switches h) (shades h)) (sym c.set) (wanted-Agrees h (config t) r.lit)),
      ),
    )
