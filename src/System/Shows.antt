-- ===== src/System/Shows.antt =====
-- What the sketch of Effect_Piano_v1.3.0.ino makes of the bytes that Effect_Piano/Effect_Piano.cpp
-- writes while `M` is down and when it is let go.
use mathlib.Core.Path.{subst}
use effect_piano_light_contr.Base.{
  ◌∙◌, ap, ℕ, zero, suc, ◌≡◌, refl, Bool, true, false, List, [], ◌∷◌, ◌++◌, append_assoc,
  if◌then◌else◌, arith, replicate,
}
use effect_piano_light_contr.Base.Int.{ℤ, pos, low_byte}
use effect_piano_light_contr.Host.Link.Fifo.{emits}
use effect_piano_light_contr.Host.Lights.Wire.{emits-append}
use effect_piano_light_contr.Sketch.State.{FastLed, Sketch, show}
use effect_piano_light_contr.Sketch.Commands.{decode, run_circle_on, run_circle_off}
use effect_piano_light_contr.Sketch.Keys.{run_rest, run_rainbow, run_refresh}
use effect_piano_light_contr.Sketch.Loop.{run_command}
use effect_piano_light_contr.Sketch.Steps.{Steps, Obeys, Steps-append, stop}
use effect_piano_light_contr.Sketch.Obeys.{circle_on-Obeys, circle_off-Obeys, brightness-Obeys}
use effect_piano_light_contr.Sketch.Config.{Config, config}
use effect_piano_light_contr.System.{IsSent}
use effect_piano_light_contr.System.Sections.{single, with_arg}

module _ (lib : FastLed) where
  -- The sketch takes the bytes of the ints; then its configuration is `c`, and a rainbow is on or not.
  pub record Shows (t : Sketch) (xs : List ℤ) (c : Config) (on : Bool) : Type 0 where
    pub after : Sketch
    pub steps : Steps lib t (emits xs) after
    pub set : config after ≡ c
    pub turned : after.rbstatus ≡ on

  Shows-trans :
      {t : Sketch} {xs ys : List ℤ} {c : Config} {b on : Bool} (f : Config → Config)
      → Shows t xs c b
      → ((u : Sketch) → Shows u ys (f (config u)) on)
      → Shows t (xs ++ ys) (f c) on
  Shows-trans {xs = xs} {ys = ys} f p next =
      let q = next p.after in
      record {
        after = q.after;
        steps = rw (emits-append xs ys) (Steps-append lib p.steps q.steps);
        set = q.set ∙ ap f p.set;
        turned = q.turned;
      }

  rainbow_on-Obeys :
      (t : Sketch) → Obeys lib t 94 [] (run_rainbow lib (record t { rbstatus = true }))
  unfolding run_command decode run_rest
  rainbow_on-Obeys t = record { takes = λ ps. refl }

  rainbow_off-Obeys :
      (t : Sketch)
      → Obeys lib t 95 [] (run_refresh (record t { rbstatus = false; rb_refresh = true }))
  unfolding run_command decode run_rest
  rainbow_off-Obeys t = record { takes = λ ps. refl }

  -- The bytes behind a first 94
  on_section : (t : Sketch) → Shows t (pos 94 ∷ []) (config t) true
  unfolding run_rainbow
  on_section t = record {
    after = run_rainbow lib (record t { rbstatus = true });
    steps = single lib 94 (rainbow_on-Obeys t);
    set = refl;
    turned = refl;
  }

  start_section :
      (t : Sketch)
      → Shows t
          (pos 93 ∷ pos 20 ∷ pos 90 ∷ pos 94 ∷ [])
          (record (config t) { brightness = 20; circle_on = false })
          true
  unfolding run_rainbow run_circle_off
  start_section t =
      let dim = show (record t { brightness = 20; level = 20 }) in
      record {
        after = run_rainbow lib (record (run_circle_off dim) { rbstatus = true });
        steps =
            Steps-append lib (with_arg lib 93 (pos 20) (omega arith) (brightness-Obeys lib t 20)) (
              Steps-append lib (single lib 90 (circle_off-Obeys lib dim))
                (single lib 94 (rainbow_on-Obeys (run_circle_off dim))));
        set = refl;
        turned = refl;
      }

  on_sections :
      (n : ℕ) (t : Sketch) → t.rbstatus ≡ true → Shows t (replicate n (pos 94)) (config t) true
  on_sections zero t e = record { after = t; steps = stop t; set = refl; turned = e }
  on_sections (suc n) t e =
      let p = on_section t in
      let q = on_sections n p.after p.turned in
      record {
        after = q.after;
        steps = Steps-append lib p.steps q.steps;
        set = q.set ∙ p.set;
        turned = q.turned;
      }

  off_section : (t : Sketch) → Shows t (pos 95 ∷ []) (config t) false
  unfolding run_refresh
  off_section t = record {
    after = run_refresh (record t { rbstatus = false; rb_refresh = true });
    steps = single lib 95 (rainbow_off-Obeys t);
    set = refl;
    turned = refl;
  }

  -- What is sent behind the 95 while the ring is on
  pub back_section :
      (b : ℤ) (t : Sketch)
      → IsSent b
      → t.rbstatus ≡ false
      → Shows t
          (pos 93 ∷ b ∷ pos 91 ∷ [])
          (record (config t) { brightness = low_byte b; circle_on = true })
          false
  unfolding run_circle_on
  back_section b t h e =
      let lit = show (record t { brightness = low_byte b; level = low_byte b }) in
      record {
        after = run_circle_on lit;
        steps = rw (emits-append (pos 93 ∷ b ∷ []) (pos 91 ∷ [])) (
            Steps-append lib (with_arg lib 93 b h (brightness-Obeys lib t (low_byte b)))
              (single lib 91 (circle_on-Obeys lib lit)));
        set = refl;
        turned = e;
      }

  -- All that is sent while `M` is down, and the 95
  pub shown :
      (n : ℕ) (t : Sketch)
      → Shows t
          ((pos 93 ∷ pos 20 ∷ pos 90 ∷ pos 94 ∷ []) ++ (replicate n (pos 94) ++ pos 95 ∷ []))
          (record (config t) { brightness = 20; circle_on = false })
          false
  shown n t =
      let p = start_section t in
      let q = on_sections n p.after p.turned in
      let r = off_section q.after in
      record {
        after = r.after;
        steps =
            rw
              (
                emits-append (pos 93 ∷ pos 20 ∷ pos 90 ∷ pos 94 ∷ [])
                    (replicate n (pos 94) ++ pos 95 ∷ []),
                emits-append (replicate n (pos 94)) (pos 95 ∷ []),
              )
              (Steps-append lib p.steps (Steps-append lib q.steps r.steps));
        set = r.set ∙ (q.set ∙ p.set);
        turned = r.turned;
      }

-- What goes out behind the 95 when `M` is let go
abbrev pub tail : Bool → ℤ → List ℤ
tail circle b = if circle then pos 93 ∷ b ∷ pos 91 ∷ [] else []

emits_behind :
    (xs ys zs vs : List ℤ) → emits (xs ++ (ys ++ zs)) ++ emits vs ≡ emits (xs ++ (ys ++ (zs ++ vs)))
emits_behind xs ys zs vs =
    rw (← emits-append (xs ++ (ys ++ zs)) vs, append_assoc xs (ys ++ zs) vs, append_assoc ys zs vs)

pub emits_joined :
    (w : List ℕ) (xs ys zs : List ℤ)
    → ((w ++ emits xs) ++ emits ys) ++ emits zs ≡ w ++ emits (xs ++ (ys ++ zs))
emits_joined w xs ys zs = rw (
  emits-append xs (ys ++ zs),
  emits-append ys zs,
  append_assoc (w ++ emits xs) (emits ys) (emits zs),
  append_assoc w (emits xs) (emits ys ++ emits zs),
)

-- The ring is on, with that brightness.
abbrev ringing : ℤ → Config → Config
ringing b c = record c { brightness = low_byte b; circle_on = true }

-- The sketch behind the 95
pub all_shown :
    (lib : FastLed) (circle : Bool) (b : ℤ) (n : ℕ) (t : Sketch)
    → (circle ≡ true → IsSent b)
    → Shows lib t
        ((pos 93 ∷ pos 20 ∷ pos 90 ∷ pos 94 ∷ [])
          ++ (replicate n (pos 94) ++ pos 95 ∷ tail circle b))
        (record (config t) { brightness = if circle then low_byte b else 20; circle_on = circle })
        false
all_shown lib true b n t h =
    let p = shown lib n t in
    let q = back_section lib b p.after (h refl) p.turned in
    record {
      after = q.after;
      steps =
          subst (λ xs. Steps lib t xs q.after)
            (emits_behind (pos 93 ∷ pos 20 ∷ pos 90 ∷ pos 94 ∷ []) (replicate n (pos 94))
              (pos 95 ∷ []) (pos 93 ∷ b ∷ pos 91 ∷ []))
            (Steps-append lib p.steps q.steps);
      set = q.set ∙ ap (ringing b) p.set;
      turned = q.turned;
    }
all_shown lib false b n t h = shown lib n t
