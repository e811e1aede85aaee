-- ===== src/System/Colors.antt =====
-- The keys of the main loop of Effect_Piano/Effect_Piano.cpp for the colours and the background: the
-- sketch of Effect_Piano_v1.3.0.ino stays in step.
use mathlib.Core.Path.{subst}
use effect_piano_light_contr.Base.{
  ℕ, sym, ◌∙◌, inl, inr, ◌≡◌, refl, Bool, true, false, [], ◌∷◌, if◌then◌else◌, arith,
}
use effect_piano_light_contr.Base.Int.{ℤ, pos}
use effect_piano_light_contr.Host.State.{Host, send, write_set}
use effect_piano_light_contr.Host.Lights.{rgb, refresh_bg}
use effect_piano_light_contr.Host.Lights.Wire.{send-Pushes, refresh_bg-Pushes, background_ints}
use effect_piano_light_contr.Host.Keys.{heat, save, background_key, color_key, background_switch}
use effect_piano_light_contr.Sketch.State.{FastLed}
use effect_piano_light_contr.Sketch.Steps.{stop}
use effect_piano_light_contr.Sketch.Config.{config}
use effect_piano_light_contr.System.Sections.{color_section, off_section}
use effect_piano_light_contr.System.Start.{back_section}
use effect_piano_light_contr.System.Agrees.{
  Source, source, HasKey, IsReady, Moves, mixed_host, nothing_goes, mix_lit,
}
use effect_piano_light_contr.System.Moves.{if-Moves}

with_keys :
    {reach : ℕ} {s : Source} {fg bg : ℤ}
    → IsReady reach s
    → HasKey fg
    → HasKey bg
    → IsReady reach (record s { front = fg; back = bg })
with_keys r kf kb = record {
  quiet = r.quiet;
  slow = r.slow;
  few_sets = r.few_sets;
  lit = r.lit;
  extend = r.extend;
  few = r.few;
  remain = r.remain;
  front_key = kf;
  back_key = kb;
  color = r.color;
  back = r.back;
  contrast = r.contrast;
}

by_mix :
    (lib : FastLed) (reach : ℕ) {h : Host} {m n : Bool × Host} (f : Bool × Host → Host)
    → m ≡ n
    → Moves lib reach h (f n)
    → Moves lib reach h (f m)
by_mix lib reach f q p = rw q p

heat_if-Moves :
    (lib : FastLed) (reach : ℕ) {h : Host} (b : Bool) (x y : Host)
    → (b ≡ true → Moves lib reach h (heat x))
    → (b ≡ false → Moves lib reach h (heat y))
    → Moves lib reach h (heat (if b then x else y))
heat_if-Moves lib reach true x y f g = f refl
heat_if-Moves lib reach false x y f g = g refl

module _ (lib : FastLed) (reach : ℕ) where
  off-Moves :
      (h : Host)
      → h.settings.on_background ≡ true
      → Moves lib reach h (
          heat (
            save (
              send
                (pos 103 ∷ [])
                (record h { settings = record (h.settings) { on_background = false } }))))
  unfolding write_set
  off-Moves h e = record {
    ints = pos 103 ∷ [];
    pushes = send-Pushes 0 _ h.link (omega arith);
    ready = λ r. r;
    answer = λ t r a. (
      _,
      off_section lib t,
      record {
        circle = a.circle;
        ends = a.ends;
        brightness = a.brightness;
        extend = a.extend;
        extend_count = a.extend_count;
        remain = a.remain;
        remain_time = a.remain_time;
        background = refl;
        back_lit = λ on. cc;
        keys_lit = λ on. cc;
        keys_unlit = λ _. inr (_, a.back_lit e, a.keys_lit e);
      },
    );
  }

  -- Settings that name other colours of the keys and of the background
  abbrev named : ℤ → ℤ → Host → Host
  named fg bg h = record h {
    settings = record (h.settings) { color_default = fg; color_background_default = bg };
  }

  abbrev with_back : Bool → Host → Host
  with_back on h = record h { settings = record (h.settings) { on_background = on } }

  -- With these colours the background and the difference to it are sent, and the background is on.
  lit-Moves :
      (h : Host) (fg bg : ℤ)
      → HasKey fg
      → HasKey bg
      → Moves lib reach h (heat (save (refresh_bg (mixed_host (with_back true (named fg bg h))))))
  unfolding write_set refresh_bg
  lit-Moves h fg bg kf kb =
      let g = mixed_host (with_back true (named fg bg h)) in
      record {
        ints = background_ints g.palette;
        pushes = refresh_bg-Pushes 0 g (omega arith);
        ready = λ r. with_keys r kf kb;
        answer = λ t r a. (
          _,
          back_section lib true g.palette t (λ e. r.back kb) (λ e. r.contrast kf kb),
          record {
            circle = a.circle;
            ends = a.ends;
            brightness = a.brightness;
            extend = a.extend;
            extend_count = a.extend_count;
            remain = a.remain;
            remain_time = a.remain_time;
            background = refl;
            back_lit = λ on. (refl, refl, refl);
            keys_lit = λ on. (refl, refl, refl);
            keys_unlit = λ off. cc;
          },
        );
      }

  still_lit-Moves :
      (h : Host) (fg bg : ℤ)
      → HasKey fg
      → HasKey bg
      → h.settings.on_background ≡ true
      → Moves lib reach h (heat (save (refresh_bg (mixed_host (named fg bg h)))))
  still_lit-Moves h fg bg kf kb e =
      subst
        (λ b.
          Moves lib reach h (heat (save (refresh_bg (mixed_host (with_back b (named fg bg h)))))))
        (sym e) (lit-Moves h fg bg kf kb)

  -- With the background off the colours are only mixed.
  mixed-Moves :
      (h : Host) (bg : ℤ)
      → HasKey bg
      → h.settings.on_background ≡ false
      → Moves lib reach h (heat (save (mixed_host (named h.settings.color_default bg h))))
  unfolding write_set
  mixed-Moves h bg kb e = record {
    ints = [];
    pushes = nothing_goes h;
    ready = λ r. with_keys r r.front_key kb;
    answer = λ t r a. (
      config t,
      record { after = t; steps = stop t; set = refl },
      record {
        circle = a.circle;
        ends = a.ends;
        brightness = a.brightness;
        extend = a.extend;
        extend_count = a.extend_count;
        remain = a.remain;
        remain_time = a.remain_time;
        background = a.background;
        back_lit = λ on. absurd (cc (sym e ∙ on));
        keys_lit = λ on. absurd (cc (sym e ∙ on));
        keys_unlit = a.keys_unlit;
      },
    );
  }

  pub background_switch-Moves :
      (h : Host) → IsReady reach (source h) → Moves lib reach h (background_switch h)
  unfolding background_switch
  background_switch-Moves h r = if-Moves lib reach h.settings.on_background (off-Moves h) (λ e.
      by_mix lib reach
        (λ (done, mixed). heat (if done then save (refresh_bg (with_back true mixed)) else mixed))
        (mix_lit h r.lit)
        (lit-Moves h h.settings.color_default h.settings.color_background_default r.front_key
          r.back_key))

  pub background_key-Moves :
      (h : Host) (c : ℤ)
      → HasKey c
      → IsReady reach (source h)
      → Moves lib reach h (background_key c h)
  unfolding background_key write_set refresh_bg
  background_key-Moves h c k r =
      by_mix lib reach
        (λ (done, mixed). heat (
          if done
          then save (if mixed.settings.on_background then refresh_bg mixed else mixed)
          else mixed))
        (mix_lit chosen r.lit) (if_refresh h.settings.on_background refl)
    where
      chosen : Host
      chosen = save (named h.settings.color_default c h)

      if_refresh :
          (on : Bool)
          → h.settings.on_background ≡ on
          → Moves lib reach h
              (heat (save (if on then refresh_bg (mixed_host chosen) else mixed_host chosen)))
      if_refresh true e =
          let m = still_lit-Moves h h.settings.color_default c r.front_key k e in
          record { ints = m.ints; pushes = m.pushes; ready = m.ready; answer = m.answer }
      if_refresh false e =
          let m = mixed-Moves h c k e in
          record { ints = m.ints; pushes = m.pushes; ready = m.ready; answer = m.answer }

  -- A colour of the keys that is chosen while the background is off
  color-Moves :
      (h : Host) (c : ℤ)
      → HasKey c
      → h.settings.on_background ≡ false
      → Moves lib reach h (
          heat (
            save (
              named c h.settings.color_background_default
                (send (pos 89 ∷ rgb (h.palette.color c)) h))))
  unfolding write_set
  color-Moves h c k off = record {
    ints = pos 89 ∷ rgb (h.palette.color c);
    pushes = send-Pushes 0 (pos 89 ∷ rgb (h.palette.color c)) h.link (omega arith);
    ready = λ r. with_keys r k r.back_key;
    answer = λ t r a.
        let (x, y, z) = r.color k in
        (
          _,
          color_section lib (h.palette.color c) t x y z,
          record {
            circle = a.circle;
            ends = a.ends;
            brightness = a.brightness;
            extend = a.extend;
            extend_count = a.extend_count;
            remain = a.remain;
            remain_time = a.remain_time;
            background = a.background;
            back_lit = λ on. absurd (cc (sym off ∙ on));
            keys_lit = λ on. absurd (cc (sym off ∙ on));
            keys_unlit = λ _. inl (refl, refl, refl);
          },
        );
  }

  pub color_key-Moves :
      (h : Host) (c : ℤ) → HasKey c → IsReady reach (source h) → Moves lib reach h (color_key c h)
  unfolding color_key write_set
  color_key-Moves h c k r =
      heat_if-Moves lib reach h.settings.on_background _ _
        (λ e.
          by_mix lib reach (λ (done, mixed). heat (save (refresh_bg mixed)))
            (mix_lit (named c h.settings.color_background_default h) r.lit)
            (still_lit-Moves h c h.settings.color_background_default k r.back_key e))
        (color-Moves h c k)
