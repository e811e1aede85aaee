-- ===== src/System/Sections.antt =====
-- The sketch's answer to each part of what `start` sends.
use effect_piano_light_contr.Base.{
  Bool-cases, inl, inr, ◌∙◌, ℕ, ◌≡◌, refl, ap, Bool, true, false, List, [], ◌∷◌, ◌++◌,
  if◌then◌else◌, arith,
}
use effect_piano_light_contr.Base.Int.{ℤ, pos, low_byte}
use effect_piano_light_contr.Host.Link.Fifo.{emit, emits}
use effect_piano_light_contr.Host.Palette.{Color}
use effect_piano_light_contr.Host.Lights.{rgb}
use effect_piano_light_contr.Host.Lights.Wire.{emits-append}
use effect_piano_light_contr.Sketch.State.{FastLed, Sketch}
use effect_piano_light_contr.Sketch.Steps.{Steps, stop, step, Obeys, Steps-append}
use effect_piano_light_contr.Sketch.Commands.{
  decode, run_circle_on, run_circle_off, run_ends, run_background_off, setup_begin, setup_end,
  breathe,
}
use effect_piano_light_contr.Sketch.Keys.{run_rest, run_rainbow, run_refresh}
use effect_piano_light_contr.Sketch.Obeys.{
  circle_on-Obeys, circle_off-Obeys, ends_on-Obeys, ends_off-Obeys, extend_on-Obeys,
  extend_off-Obeys, remain_on-Obeys, remain_off-Obeys, brightness-Obeys, color-Obeys,
  background_on-Obeys, background_off-Obeys, reset-Obeys,
}
use effect_piano_light_contr.Sketch.Loop.{run_command}
use effect_piano_light_contr.Sketch.Config.{Config, config}
use effect_piano_light_contr.System.{IsSent, Configures}

emit_sent : (a : ℤ) → IsSent a → emit a ≡ low_byte a ∷ []
emit_sent a h = ground arith

module _ (lib : FastLed) where
  -- One part behind the other, where the second changes the configuration by `f`.
  pub Configures-trans :
      {s : Sketch} {xs : List ℤ} {c : Config} {ys : List ℤ} (f : Config → Config)
      → Configures lib s xs c
      → ((t : Sketch) → Configures lib t ys (f (config t)))
      → Configures lib s (xs ++ ys) (f c)
  Configures-trans {xs = xs} {ys = ys} f p next =
      let q = next p.after in
      record {
        after = q.after;
        steps = rw (emits-append xs ys) (Steps-append lib p.steps q.steps);
        set = q.set ∙ ap f p.set;
      }

  -- A command of one byte.
  pub single : {s t : Sketch} (b : ℕ) → Obeys lib s b [] t → Steps lib s (b ∷ []) t
  single {s} {t} b o = step b [] o (stop t)

  -- A command of one byte with an argument that is sent.
  pub with_arg :
      {s t : Sketch} (b : ℕ) (a : ℤ)
      → IsSent a
      → Obeys lib s b (low_byte a ∷ []) t
      → Steps lib s (b ∷ emits (a ∷ [])) t
  with_arg {s} {t} b a h o = rw (emit_sent a h) (step b (low_byte a ∷ []) o (stop t))

  with_rgb :
      {s t : Sketch} (b : ℕ) (c : Color)
      → IsSent c.r
      → IsSent c.g
      → IsSent c.b
      → Obeys lib s b (low_byte c.r ∷ low_byte c.g ∷ low_byte c.b ∷ []) t
      → Steps lib s (b ∷ emits (rgb c)) t
  with_rgb {s} {t} b c hr hg hb o =
      rw (emit_sent c.r hr, emit_sent c.g hg, emit_sent c.b hb)
        (step b (low_byte c.r ∷ low_byte c.g ∷ low_byte c.b ∷ []) o (stop t))

  pub circle_section :
      (on : Bool) (s : Sketch)
      → Configures lib s
          (if on then pos 91 ∷ [] else pos 90 ∷ [])
          (record (config s) { circle_on = on })
  unfolding run_circle_on run_circle_off
  circle_section true s = record {
    after = run_circle_on s;
    steps = single 91 (circle_on-Obeys lib s);
    set = refl;
  }
  circle_section false s = record {
    after = run_circle_off s;
    steps = single 90 (circle_off-Obeys lib s);
    set = refl;
  }

  pub ends_section :
      (on : Bool) (s : Sketch)
      → Configures lib s
          (if on then pos 92 ∷ [] else pos 97 ∷ [])
          (record (config s) { ends_on = on })
  unfolding run_ends
  ends_section true s = record {
    after = run_ends true s;
    steps = single 92 (ends_on-Obeys lib s);
    set = refl;
  }
  ends_section false s = record {
    after = run_ends false s;
    steps = single 97 (ends_off-Obeys lib s);
    set = refl;
  }

  pub remain_section :
      (on : Bool) (n : ℤ) (s : Sketch)
      → (on ≡ true → IsSent n)
      → Configures lib s
          (if on then pos 98 ∷ n ∷ [] else pos 99 ∷ [])
          (record (config s) { remain = on; remain_time = if on then low_byte n else s.rm_time })
  remain_section true n s h = record {
    after = _;
    steps = with_arg 98 n (h refl) (remain_on-Obeys lib s (low_byte n));
    set = refl;
  }
  remain_section false n s h = record {
    after = _;
    steps = single 99 (remain_off-Obeys lib s);
    set = refl;
  }

  pub extend_section :
      (on : Bool) (n : ℤ) (s : Sketch)
      → (on ≡ true → IsSent n)
      → Configures lib s (if on then pos 96 ∷ n ∷ [] else pos 101 ∷ []) (record (config s) {
        extend = on;
        extend_count = if on then low_byte n else s.numofextend;
      })
  extend_section true n s h = record {
    after = _;
    steps = with_arg 96 n (h refl) (extend_on-Obeys lib s (low_byte n));
    set = refl;
  }
  extend_section false n s h = record {
    after = _;
    steps = single 101 (extend_off-Obeys lib s);
    set = refl;
  }

  pub brightness_section :
      (n : ℤ) (s : Sketch)
      → IsSent n
      → Configures lib s (pos 93 ∷ n ∷ []) (record (config s) { brightness = low_byte n })
  brightness_section n s h = record {
    after = _;
    steps = with_arg 93 n h (brightness-Obeys lib s (low_byte n));
    set = refl;
  }

  pub color_section :
      (c : Color) (s : Sketch)
      → IsSent c.r
      → IsSent c.g
      → IsSent c.b
      → Configures lib s
          (pos 89 ∷ rgb c)
          (record (config s) { red = low_byte c.r; green = low_byte c.g; blue = low_byte c.b })
  color_section c s hr hg hb =
      let (t, o, e) = color-Obeys lib s (low_byte c.r) (low_byte c.g) (low_byte c.b) in
      record { after = t; steps = with_rgb 89 c hr hg hb o; set = ap config e }

  pub off_section :
      (s : Sketch) → Configures lib s (pos 103 ∷ []) (record (config s) { background = false })
  unfolding run_background_off
  off_section s = record {
    after = run_background_off lib s;
    steps = single 103 (background_off-Obeys lib s);
    set = refl;
  }

  pub background_section :
      (c : Color) (s : Sketch)
      → IsSent c.r
      → IsSent c.g
      → IsSent c.b
      → Configures lib s (pos 103 ∷ pos 102 ∷ rgb c) (record (config s) {
        background = true;
        back_red = low_byte c.r;
        back_green = low_byte c.g;
        back_blue = low_byte c.b;
      })
  unfolding run_background_off
  background_section c s hr hg hb = record {
    after = _;
    steps = step 103 [] (background_off-Obeys lib s) (
        with_rgb 102 c hr hg hb (
          background_on-Obeys lib (run_background_off lib s) (low_byte c.r) (low_byte c.g)
            (low_byte c.b)));
    set = refl;
  }

  rainbow-Obeys : (s : Sketch) → s.rbstatus ≡ true → Obeys lib s 127 [] (run_rainbow lib s)
  unfolding run_command decode run_rest
  rainbow-Obeys s e = record { takes = λ ps. rw e }

  refresh-Obeys :
      (s : Sketch) → s.rbstatus ≡ false → s.rb_refresh ≡ true → Obeys lib s 127 [] (run_refresh s)
  unfolding run_command decode run_rest
  refresh-Obeys s e f = record { takes = λ ps. rw (e, f) }

  idle-Obeys : (s : Sketch) → s.rbstatus ≡ false → s.rb_refresh ≡ false → Obeys lib s 127 [] s
  unfolding run_command decode run_rest
  idle-Obeys s e f = record {
    takes = λ ps. elim (Bool-cases s.rm_status) [ inl g ↦ rw (e, f, g) | inr g ↦ rw (e, f, g) ];
  }

  -- A 127 outside `setup ()` changes nothing that the program sets.
  pub idle_section : (s : Sketch) → Configures lib s (pos 127 ∷ []) (config s)
  unfolding run_rainbow run_refresh
  idle_section s = elim (Bool-cases s.rbstatus) [
    | inl e ↦ record {
      after = run_rainbow lib s;
      steps = single 127 (rainbow-Obeys s e);
      set = refl;
    }
    | inr e ↦ elim (Bool-cases s.rb_refresh) [
      | inl f ↦ record {
        after = run_refresh s;
        steps = single 127 (refresh-Obeys s e f);
        set = refl;
      }
      | inr f ↦ record { after = s; steps = single 127 (idle-Obeys s e f); set = refl }
    ]
  ]

  -- The configuration behind `setup ()`.
  abbrev pub fresh : Config → Config
  fresh c = record c {
    red = 20;
    green = 24;
    blue = 127;
    circle_on = true;
    ends_on = true;
    brightness = 100;
  }

  -- `125`, and the first and the second 127 behind it. The 0 between them is never written.
  pub reset_section :
      (s : Sketch)
      → Configures lib s
          ((pos 125 ∷ []) ++ ((pos 0 ∷ pos 127 ∷ []) ++ (pos 127 ∷ [])))
          (fresh (config s))
  unfolding setup_begin setup_end breathe
  reset_section s =
      let next = idle_section (setup_end (breathe (setup_begin s))) in
      record {
        after = next.after;
        steps = step 125 (127 ∷ []) (reset-Obeys lib s) next.steps;
        set = next.set;
      }
