-- ===== src/System/Round.antt =====
-- The part of the main loop of Effect_Piano/Effect_Piano.cpp behind its keys: the sketch of
-- Effect_Piano_v1.3.0.ino stays in step with the settings.
use effect_piano_light_contr.Base.{◌∙◌, sym, ℕ, ◌≡◌, refl, true, [], ◌∷◌, Option, some, none, arith}
use effect_piano_light_contr.Base.Int.{ℤ, pos, ◌+ℤ◌, ◌-ℤ◌, leb_ℤ}
use effect_piano_light_contr.Host.Link.Fifo.{emits}
use effect_piano_light_contr.Host.State.{Host}
use effect_piano_light_contr.Host.Lights.Wire.{send-Pushes}
use effect_piano_light_contr.Host.Midi.{
  Message, is_heard, on_message, on_poll, on_timer, cool_down, round_end,
}
use effect_piano_light_contr.Sketch.State.{FastLed, Sketch}
use effect_piano_light_contr.Sketch.Config.{Config, config}
use effect_piano_light_contr.Sketch.Commands.{decode}
use effect_piano_light_contr.Sketch.Loop.{run_command}
use effect_piano_light_contr.Sketch.Steps.{Obeys, stop, step}
use effect_piano_light_contr.Sketch.Keys.Extent.{extent, IsSafe}
use effect_piano_light_contr.Sketch.Orders.{rest-Obeys, key-Obeys}
use effect_piano_light_contr.System.{Configures}
use effect_piano_light_contr.System.Agrees.{
  Agrees, switches, shades, source, IsReady, Moves, Moves-trans, rests, nothing_goes,
}
use effect_piano_light_contr.System.Moves.{if-Moves}
use effect_piano_light_contr.System.Play.{IsPlayable, emits_key}

-- A sketch in step with a program that is ready stays in range.
Agrees-IsSafe :
    {reach : ℕ} (h : Host) {c : Config}
    → IsReady reach (source h)
    → Agrees (switches h) (shades h) c
    → IsSafe reach (extent c)
Agrees-IsSafe h r a = record {
  reach = λ x. omega (arith, a.extend_count (sym a.extend ∙ x), r.few);
  time = λ x z. r.remain (sym (a.remain_time (sym a.remain ∙ x)) ∙ z);
}

module _ (lib : FastLed) (reach : ℕ) where
  -- A byte that changes nothing that the program sets
  byte_Configures :
      (b : ℕ) (x : ℤ) (t : Sketch)
      → emits (x ∷ []) ≡ b ∷ []
      → (u : Sketch) × Obeys lib t b [] u × (config u ≡ config t)
      → Configures lib t (x ∷ []) (config t)
  byte_Configures b x t e (u, o, same) = record {
    after = u;
    steps = rw e (step b [] o (stop u));
    set = same;
  }

  poll-Moves :
      (m : Option Message) (h : Host) → IsPlayable reach m → Moves lib reach h (on_poll m h)
  unfolding on_poll on_message
  poll-Moves none h p = rests lib reach h
  poll-Moves (some m) h (k, at, lo, hi, top) =
      if-Moves lib reach (is_heard h.settings m.status)
        (λ _. record {
          ints = (pos m.data1 -ℤ pos 20) ∷ [];
          pushes = send-Pushes 0 _ h.link (omega arith);
          ready = λ r. r;
          answer = λ t r a. (
            config t,
            byte_Configures k (pos m.data1 -ℤ pos 20) t (emits_key m.data1 k at (omega arith) top)
                (key-Obeys lib reach k t lo hi top (Agrees-IsSafe h r a)),
            a,
          );
        })
        (λ _. rests lib reach h)

  timer-Moves : (h : Host) → Moves lib reach h (on_timer h)
  unfolding on_timer run_command decode
  timer-Moves h =
      if-Moves lib reach h.settings.on_remain
        (λ _.
          if-Moves lib reach (leb_ℤ h.panel.rm_times (h.panel.rm_timer +ℤ pos 1))
            (λ _. record {
              ints = pos 100 ∷ [];
              pushes = send-Pushes 0 _ h.link (omega arith);
              ready = λ r. r;
              answer = λ t r a. (
                config t,
                byte_Configures 100 (pos 100) t refl (
                    rest-Obeys lib reach 100 t t refl (Agrees-IsSafe h r a)
                      (λ lo hi. absurd (omega arith))),
                a,
              );
            })
            (λ _. record {
              ints = [];
              pushes = nothing_goes h;
              ready = λ r. r;
              answer = λ t r a. (config t, record { after = t; steps = stop t; set = refl }, a);
            }))
        (λ _. rests lib reach h)

  cooled : {h g : Host} → Moves lib reach (cool_down h) g → Moves lib reach h g
  unfolding cool_down
  cooled m = record { ints = m.ints; pushes = m.pushes; ready = m.ready; answer = m.answer }

  pub round_end-Moves :
      (m : Option Message) (h : Host) → IsPlayable reach m → Moves lib reach h (round_end m h)
  unfolding round_end cool_down run_command decode
  round_end-Moves m h p =
      if-Moves lib reach h.panel.contain_rainbow
        (λ _. record {
          ints = pos 94 ∷ [];
          pushes = send-Pushes 0 _ h.link (omega arith);
          ready = λ r. r;
          answer = λ t r a. (
            config t,
            byte_Configures 94 (pos 94) t refl (
                rest-Obeys lib reach 94 t (record t { rbstatus = true }) refl (Agrees-IsSafe h r a)
                  (λ lo hi. absurd (omega arith))),
            a,
          );
        })
        (λ _. cooled (
          Moves-trans lib reach (poll-Moves m (cool_down h) p)
            (timer-Moves (on_poll m (cool_down h)))))
