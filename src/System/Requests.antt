-- ===== src/System/Requests.antt =====
-- The requests in the console of Effect_Piano/Effect_Piano.cpp that set something: the sketch of
-- Effect_Piano_v1.3.0.ino stays in step.
use effect_piano_light_contr.Base.{
  sym, ◌∙◌, ℕ, ◌≤◌, ◌≡◌, ◌≢◌, refl, true, [], ◌∷◌, if◌then◌else◌, arith,
}
use effect_piano_light_contr.Base.Int.{ℤ, pos, low_byte}
use effect_piano_light_contr.Host.State.{Host, send, write_set}
use effect_piano_light_contr.Host.Lights.Wire.{send-Pushes}
use effect_piano_light_contr.Host.Keys.{save}
use effect_piano_light_contr.Host.Console.{extended}
use effect_piano_light_contr.Sketch.State.{FastLed}
use effect_piano_light_contr.Sketch.Steps.{stop}
use effect_piano_light_contr.Sketch.Config.{config}
use effect_piano_light_contr.System.{IsSent}
use effect_piano_light_contr.System.Sections.{remain_section, extend_section, brightness_section}
use effect_piano_light_contr.System.Agrees.{switches, shades, source, IsReady, Moves, nothing_goes}
use effect_piano_light_contr.System.Moves.{if-Moves}

module _ (lib : FastLed) (reach : ℕ) where
  -- What is saved changes nothing that the sketch follows.
  pub save-Moves : {h g : Host} → Moves lib reach h g → Moves lib reach h (save g)
  unfolding write_set
  save-Moves m = record { ints = m.ints; pushes = m.pushes; ready = m.ready; answer = m.answer }

  pub brightness-Moves :
      (b : ℤ) (h : Host)
      → IsSent b
      → Moves lib reach h
          (send (pos 93 ∷ b ∷ []) (record h { settings = record (h.settings) { brightness = b } }))
  brightness-Moves b h sent = record {
    ints = pos 93 ∷ b ∷ [];
    pushes = send-Pushes 0 _ h.link (omega arith);
    ready = λ r. r;
    answer = λ t r a. (
      _,
      brightness_section lib b t sent,
      record {
        circle = a.circle;
        ends = a.ends;
        brightness = refl;
        extend = a.extend;
        extend_count = a.extend_count;
        remain = a.remain;
        remain_time = a.remain_time;
        background = a.background;
        back_lit = a.back_lit;
        keys_lit = a.keys_lit;
        keys_unlit = a.keys_unlit;
      },
    );
  }

  -- Settings that the sketch does not follow
  pub aside-Moves :
      {h g : Host}
      → g.link ≡ h.link
      → switches g ≡ switches h
      → shades g ≡ shades h
      → (IsReady reach (source h) → IsReady reach (source g))
      → Moves lib reach h g
  aside-Moves {h} {g} link same colors ready = record {
    ints = [];
    pushes = rw link (nothing_goes h);
    ready = ready;
    answer =
        λ t r a. (config t, record { after = t; steps = stop t; set = refl }, rw (same, colors) a);
  }

  IsReady-extend :
      (e : ℤ) (h : Host)
      → IsSent e
      → low_byte e ≤ reach
      → IsReady reach (source h)
      → IsReady reach (record (source h) { num_extend = e })
  IsReady-extend e h sent few r = record {
    quiet = r.quiet;
    slow = r.slow;
    few_sets = r.few_sets;
    lit = r.lit;
    extend = sent;
    few = few;
    remain = r.remain;
    front_key = r.front_key;
    back_key = r.back_key;
    color = r.color;
    back = r.back;
    contrast = r.contrast;
  }

  IsReady-remain :
      (n : ℤ) (h : Host)
      → IsSent n
      → IsReady reach (source h)
      → IsReady reach (record (source h) { num_remain = n })
  IsReady-remain n h sent r = record {
    quiet = r.quiet;
    slow = r.slow;
    few_sets = r.few_sets;
    lit = r.lit;
    extend = r.extend;
    few = r.few;
    remain = sent;
    front_key = r.front_key;
    back_key = r.back_key;
    color = r.color;
    back = r.back;
    contrast = r.contrast;
  }

  -- The number of LEDs is sent when the extension is on, and else when it is switched on.
  pub extended-Moves :
      (e : ℤ) (h : Host) → IsSent e → low_byte e ≤ reach → Moves lib reach h (extended e h)
  unfolding extended
  extended-Moves e h sent few = save-Moves (
      if-Moves lib reach h.settings.on_extend
        (λ on. record {
          ints = pos 96 ∷ e ∷ [];
          pushes = send-Pushes 0 _ h.link (omega arith);
          ready = IsReady-extend e h sent few;
          answer = λ t r a. (
            _,
            extend_section lib true e t (λ _. sent),
            record {
              circle = a.circle;
              ends = a.ends;
              brightness = a.brightness;
              extend = sym on;
              extend_count = λ _. refl;
              remain = a.remain;
              remain_time = a.remain_time;
              background = a.background;
              back_lit = a.back_lit;
              keys_lit = a.keys_lit;
              keys_unlit = a.keys_unlit;
            },
          );
        })
        (λ off. record {
          ints = [];
          pushes = nothing_goes h;
          ready = IsReady-extend e h sent few;
          answer = λ t r a. (
            config t,
            record { after = t; steps = stop t; set = refl },
            record {
              circle = a.circle;
              ends = a.ends;
              brightness = a.brightness;
              extend = a.extend;
              extend_count = λ on. absurd (cc (sym off ∙ on));
              remain = a.remain;
              remain_time = a.remain_time;
              background = a.background;
              back_lit = a.back_lit;
              keys_lit = a.keys_lit;
              keys_unlit = a.keys_unlit;
            },
          );
        }))

  -- The time that keys remain, likewise
  pub remaining-Moves :
      (n : ℤ) (h : Host)
      → IsSent n
      → Moves lib reach h (
          let kept : Host = record h { settings = record (h.settings) { num_remain = n } } in
          save (if h.settings.on_remain then send (pos 98 ∷ n ∷ []) kept else kept))
  remaining-Moves n h sent = save-Moves (
      if-Moves lib reach h.settings.on_remain
        (λ on. record {
          ints = pos 98 ∷ n ∷ [];
          pushes = send-Pushes 0 _ h.link (omega arith);
          ready = IsReady-remain n h sent;
          answer = λ t r a. (
            _,
            remain_section lib true n t (λ _. sent),
            record {
              circle = a.circle;
              ends = a.ends;
              brightness = a.brightness;
              extend = a.extend;
              extend_count = a.extend_count;
              remain = sym on;
              remain_time = λ _. refl;
              background = a.background;
              back_lit = a.back_lit;
              keys_lit = a.keys_lit;
              keys_unlit = a.keys_unlit;
            },
          );
        })
        (λ off. record {
          ints = [];
          pushes = nothing_goes h;
          ready = IsReady-remain n h sent;
          answer = λ t r a. (
            config t,
            record { after = t; steps = stop t; set = refl },
            record {
              circle = a.circle;
              ends = a.ends;
              brightness = a.brightness;
              extend = a.extend;
              extend_count = a.extend_count;
              remain = a.remain;
              remain_time = λ on. absurd (cc (sym off ∙ on));
              background = a.background;
              back_lit = a.back_lit;
              keys_lit = a.keys_lit;
              keys_unlit = a.keys_unlit;
            },
          );
        }))

  pub IsReady-latency :
      (n : ℤ) (h : Host)
      → n ≢ pos 0
      → IsReady reach (source h)
      → IsReady reach (record (source h) { latency = n })
  IsReady-latency n h slow r = record {
    quiet = r.quiet;
    slow = slow;
    few_sets = r.few_sets;
    lit = r.lit;
    extend = r.extend;
    few = r.few;
    remain = r.remain;
    front_key = r.front_key;
    back_key = r.back_key;
    color = r.color;
    back = r.back;
    contrast = r.contrast;
  }
