-- ===== src/System/Moves.antt =====
-- Each key of the main loop of Effect_Piano/Effect_Piano.cpp that switches something: the sketch of
-- Effect_Piano_v1.3.0.ino stays in step.
use effect_piano_light_contr.Base.{
  ℕ, zero, suc, ◌≤◌, ◌≡◌, ◌≢◌, refl, Bool, Bool-cases, inl, inr, true, false, not, [], ◌∷◌, some,
  length, if◌then◌else◌, arith,
}
use effect_piano_light_contr.Base.Int.{ℤ, pos, negsuc, ◌*ℤ◌, div_trunc}
use effect_piano_light_contr.Host.State.{Host, send, write_set}
use effect_piano_light_contr.Host.Lights.Wire.{send-Pushes}
use effect_piano_light_contr.Host.Keys.{
  heat, save, quotient, clear_key, circle_key, ends_key, extend_key, remain_key,
}
use effect_piano_light_contr.Sketch.State.{FastLed}
use effect_piano_light_contr.Sketch.Steps.{stop, step}
use effect_piano_light_contr.Sketch.Commands.{run_clear}
use effect_piano_light_contr.Sketch.Obeys.{clear-Obeys}
use effect_piano_light_contr.Sketch.Config.{config}
use effect_piano_light_contr.System.Sections.{
  circle_section, ends_section, remain_section, extend_section,
}
use effect_piano_light_contr.System.Agrees.{source, IsReady, Moves}

ints_if : (b : Bool) (x y : ℤ) → (if b then x else y) ∷ [] ≡ (if b then x ∷ [] else y ∷ [])
ints_if true x y = refl
ints_if false x y = refl

if_on : {A : Type 0} (on : Bool) (x y : A) → on ≡ true → (if on then x else y) ≡ x
if_on true x y e = refl
if_on false x y e = cc

length_if : (b : Bool) (x y z : ℤ) → length (if b then x ∷ y ∷ [] else z ∷ []) ≤ 2
length_if true x y z = omega arith
length_if false x y z = omega arith

pub quotient-some : (a n : ℤ) → n ≢ pos 0 → (q : ℤ) × (quotient a n ≡ some q)
unfolding quotient
quotient-some a (pos zero) h = absurd (h refl)
quotient-some a (pos (suc n)) h = (_, refl)
quotient-some a (negsuc n) h = (_, refl)

pub if-Moves :
    (lib : FastLed) (reach : ℕ) {h x y : Host} (b : Bool)
    → (b ≡ true → Moves lib reach h x)
    → (b ≡ false → Moves lib reach h y)
    → Moves lib reach h (if b then x else y)
if-Moves lib reach true f g = f refl
if-Moves lib reach false f g = g refl

module _ (lib : FastLed) (reach : ℕ) where
  pub clear-Moves : (h : Host) → Moves lib reach h (clear_key h)
  unfolding clear_key run_clear
  clear-Moves h = record {
    ints = pos 88 ∷ [];
    pushes = send-Pushes 0 (pos 88 ∷ []) h.link (omega arith);
    ready = λ r. r;
    answer = λ t r a. (
      config t,
      record {
        after = run_clear lib t;
        steps = step 88 [] (clear-Obeys lib t) (stop _);
        set = refl;
      },
      a,
    );
  }

  pub circle-Moves : (h : Host) → Moves lib reach h (circle_key h)
  unfolding circle_key write_set
  circle-Moves h =
      let on = not h.settings.on_circle in
      record {
        ints = if on then pos 91 ∷ [] else pos 90 ∷ [];
        pushes = rw (← ints_if on (pos 91) (pos 90)) (send-Pushes 0 _ h.link (omega arith));
        ready = λ r. r;
        answer = λ t r a. (
          _,
          circle_section lib on t,
          record {
            circle = refl;
            ends = a.ends;
            brightness = a.brightness;
            extend = a.extend;
            extend_count = a.extend_count;
            remain = a.remain;
            remain_time = a.remain_time;
            background = a.background;
            back_lit = a.back_lit;
            keys_lit = a.keys_lit;
            keys_unlit = a.keys_unlit;
          },
        );
      }

  pub ends-Moves : (h : Host) → Moves lib reach h (ends_key h)
  unfolding ends_key write_set
  ends-Moves h =
      let on = not h.settings.on_ends in
      record {
        ints = if on then pos 92 ∷ [] else pos 97 ∷ [];
        pushes = rw (← ints_if on (pos 92) (pos 97)) (send-Pushes 0 _ h.link (omega arith));
        ready = λ r. r;
        answer = λ t r a. (
          _,
          ends_section lib on t,
          record {
            circle = a.circle;
            ends = refl;
            brightness = a.brightness;
            extend = a.extend;
            extend_count = a.extend_count;
            remain = a.remain;
            remain_time = a.remain_time;
            background = a.background;
            back_lit = a.back_lit;
            keys_lit = a.keys_lit;
            keys_unlit = a.keys_unlit;
          },
        );
      }

  pub extend-Moves : (h : Host) → Moves lib reach h (extend_key h)
  unfolding extend_key write_set
  extend-Moves h =
      let on = not h.settings.on_extend in
      record {
        ints = if on then pos 96 ∷ h.settings.num_extend ∷ [] else pos 101 ∷ [];
        pushes =
            send-Pushes 0 _ h.link
              (omega (arith, length_if on (pos 96) h.settings.num_extend (pos 101)));
        ready = λ r. r;
        answer = λ t r a. (
          _,
          extend_section lib on h.settings.num_extend t (λ e. r.extend),
          record {
            circle = a.circle;
            ends = a.ends;
            brightness = a.brightness;
            extend = refl;
            extend_count = if_on on _ _;
            remain = a.remain;
            remain_time = a.remain_time;
            background = a.background;
            back_lit = a.back_lit;
            keys_lit = a.keys_lit;
            keys_unlit = a.keys_unlit;
          },
        );
      }

  remain_off :
      (h : Host)
      → Moves lib reach h (
          heat (
            save (
              send
                (pos 99 ∷ [])
                (record h { settings = record (h.settings) { on_remain = false } }))))
  unfolding write_set
  remain_off h = record {
    ints = pos 99 ∷ [];
    pushes = send-Pushes 0 _ h.link (omega arith);
    ready = λ r. r;
    answer = λ t r a. (
      _,
      remain_section lib false h.settings.num_remain t (λ e. r.remain),
      record {
        circle = a.circle;
        ends = a.ends;
        brightness = a.brightness;
        extend = a.extend;
        extend_count = a.extend_count;
        remain = refl;
        remain_time = λ e. cc;
        background = a.background;
        back_lit = a.back_lit;
        keys_lit = a.keys_lit;
        keys_unlit = a.keys_unlit;
      },
    );
  }

  remain_on :
      (h : Host) (times : ℤ)
      → Moves lib reach h (
          heat (
            save (
              send (pos 98 ∷ h.settings.num_remain ∷ []) (record h {
                settings = record (h.settings) { on_remain = true };
                panel = record (h.panel) { rm_times = times };
              }))))
  unfolding write_set
  remain_on h times = record {
    ints = pos 98 ∷ h.settings.num_remain ∷ [];
    pushes = send-Pushes 0 _ h.link (omega arith);
    ready = λ r. r;
    answer = λ t r a. (
      _,
      remain_section lib true h.settings.num_remain t (λ e. r.remain),
      record {
        circle = a.circle;
        ends = a.ends;
        brightness = a.brightness;
        extend = a.extend;
        extend_count = a.extend_count;
        remain = refl;
        remain_time = λ e. refl;
        background = a.background;
        back_lit = a.back_lit;
        keys_lit = a.keys_lit;
        keys_unlit = a.keys_unlit;
      },
    );
  }

  -- `X` has a result as long as the latency is not 0.
  pub remain-Moves :
      (h : Host)
      → IsReady reach (source h)
      → (g : Host) × (remain_key h ≡ some g) × Moves lib reach h g
  unfolding remain_key
  remain-Moves h r = elim (Bool-cases h.settings.on_remain) [
    | inl e ↦ (_, rw e, remain_off h)
    | inr e ↦
        let (times, f) =
          quotient-some (div_trunc (h.settings.num_remain *ℤ pos 1000) 200) h.settings.latency
            r.slow in
        (_, rw (e, f), remain_on h times)
  ]
