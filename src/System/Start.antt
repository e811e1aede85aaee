-- ===== src/System/Start.antt =====
-- `start` of Effect_Piano/Effect_Piano.cpp sets the sketch of Effect_Piano_v1.3.0.ino up as the
-- settings say.
use effect_piano_light_contr.Base.{
  ◌∙◌, ℕ, ◌≤◌, ◌≡◌, refl, Bool, true, false, List, [], ◌∷◌, ◌++◌, length, if◌then◌else◌, arith,
}
use effect_piano_light_contr.Base.Int.{ℤ, pos, low_byte}
use effect_piano_light_contr.Host.Link.Fifo.{Holds, emits}
use effect_piano_light_contr.Host.Settings.{Settings}
use effect_piano_light_contr.Host.Palette.{Color, Palette}
use effect_piano_light_contr.System.Mixing.{
  difference, has_background, front_color, ground_color, mixed, background_sent,
}
use effect_piano_light_contr.Host.State.{Host, send}
use effect_piano_light_contr.Host.Lights.{rgb, start}
use effect_piano_light_contr.Host.Lights.Wire.{
  Pushes-fewer, Pushes-trans, send-Pushes, start-Pushes, start_ints, start_switches_ints,
  start_background_ints, background_ints,
}
use effect_piano_light_contr.Sketch.State.{FastLed, Sketch}
use effect_piano_light_contr.Sketch.Serial.{bytes}
use effect_piano_light_contr.Sketch.Loop.{feed, ready}
use effect_piano_light_contr.Sketch.Steps.{feed-Steps}
use effect_piano_light_contr.Sketch.Config.{Config, config}
use effect_piano_light_contr.System.{IsSent, Configures}
use effect_piano_light_contr.System.Sections.{
  Configures-trans, circle_section, ends_section, remain_section, extend_section,
  brightness_section, color_section, off_section, background_section, reset_section, fresh,
}

-- The colour of the keys: the difference to the background, if that is on.
abbrev pub wanted_color : Settings → Palette → Color
wanted_color s p =
    if has_background s then difference (front_color s p) (ground_color s p) else front_color s p

abbrev pub IsSentColor : Color → Type 0
IsSentColor c = IsSent c.r × IsSent c.g × IsSent c.b

-- No argument that `start` sends is 0 as a byte.
pub record IsSendable (s : Settings) (p : Palette) : Type 0 where
  pub front : IsSentColor (front_color s p)
  pub back : has_background s ≡ true → IsSentColor (ground_color s p)
  pub difference :
      has_background s ≡ true → IsSentColor (difference (front_color s p) (ground_color s p))
  pub remain : s.on_remain ≡ true → IsSent s.num_remain
  pub extend : s.on_extend ≡ true → IsSent s.num_extend
  pub bright : IsSent s.brightness

-- The configuration that the settings ask for; what they leave open stays as it is in `c`.
abbrev pub wanted : Settings → Palette → Config → Config
wanted s p c = record {
  red = low_byte (wanted_color s p).r;
  green = low_byte (wanted_color s p).g;
  blue = low_byte (wanted_color s p).b;
  back_red = if has_background s then low_byte (ground_color s p).r else c.back_red;
  back_green = if has_background s then low_byte (ground_color s p).g else c.back_green;
  back_blue = if has_background s then low_byte (ground_color s p).b else c.back_blue;
  circle_on = s.on_circle;
  ends_on = s.on_ends;
  brightness = low_byte s.brightness;
  extend = s.on_extend;
  extend_count = if s.on_extend then low_byte s.num_extend else c.extend_count;
  remain = s.on_remain;
  remain_time = if s.on_remain then low_byte s.num_remain else c.remain_time;
  background = has_background s;
}

abbrev pub with_color : Color → Config → Config
with_color c d = record d { red = low_byte c.r; green = low_byte c.g; blue = low_byte c.b }

abbrev with_switches : Settings → Config → Config
with_switches s c = record c {
  circle_on = s.on_circle;
  ends_on = s.on_ends;
  brightness = low_byte s.brightness;
  extend = s.on_extend;
  extend_count = if s.on_extend then low_byte s.num_extend else c.extend_count;
  remain = s.on_remain;
  remain_time = if s.on_remain then low_byte s.num_remain else c.remain_time;
}

abbrev pub with_back_color : Color → Config → Config
with_back_color c d = record d {
  background = true;
  back_red = low_byte c.r;
  back_green = low_byte c.g;
  back_blue = low_byte c.b;
}

-- The background `b` and the keys in `c`, or no background
abbrev pub with_background : Bool → Color → Color → Config → Config
with_background on b c d =
    if on then with_color c (with_back_color b d) else record d { background = false }

module _ (lib : FastLed) where
  switches_section :
      (s : Settings) (t : Sketch)
      → (s.on_remain ≡ true → IsSent s.num_remain)
      → (s.on_extend ≡ true → IsSent s.num_extend)
      → IsSent s.brightness
      → Configures lib t (start_switches_ints s) (with_switches s (config t))
  switches_section s t hr he hb =
      Configures-trans lib (λ c. record c { brightness = low_byte s.brightness })
        (Configures-trans lib
          (λ c. record c {
            extend = s.on_extend;
            extend_count = if s.on_extend then low_byte s.num_extend else c.extend_count;
          })
          (Configures-trans lib
            (λ c. record c {
              remain = s.on_remain;
              remain_time = if s.on_remain then low_byte s.num_remain else c.remain_time;
            })
            (Configures-trans lib (λ c. record c { ends_on = s.on_ends })
              (circle_section lib s.on_circle t) (ends_section lib s.on_ends))
            (λ u. remain_section lib s.on_remain s.num_remain u hr))
          (λ u. extend_section lib s.on_extend s.num_extend u he))
        (λ u. brightness_section lib s.brightness u hb)

  pub back_section :
      (on : Bool) (p : Palette) (t : Sketch)
      → (on ≡ true → IsSentColor p.color_bg_real)
      → (on ≡ true → IsSentColor p.color_plus)
      → Configures lib t
          (if on then background_ints p else pos 103 ∷ [])
          (with_background on p.color_bg_real p.color_plus (config t))
  back_section true p t hb hp =
      let (br, bg, bb) = hb refl in
      let (pr, pg, pb) = hp refl in
      Configures-trans lib (with_color p.color_plus)
        (background_section lib p.color_bg_real t br bg bb)
        (λ u. color_section lib p.color_plus u pr pg pb)
  back_section false p t hb hp = off_section lib t

  wanted_fresh :
      (on : Bool) (s : Settings) (b c d : Color) (k : Config)
      → with_switches s (with_background on b c (with_color d (fresh lib k)))
        ≡ record (with_switches s (with_color (if on then c else d) k)) {
          back_red = if on then low_byte b.r else k.back_red;
          back_green = if on then low_byte b.g else k.back_green;
          back_blue = if on then low_byte b.b else k.back_blue;
          background = on;
        }
  wanted_fresh true s b c d k = refl
  wanted_fresh false s b c d k = refl

  -- The part of `start` for the background
  start_back_section :
      (s : Settings) (p : Palette) (t : Sketch)
      → IsSendable s p
      → Configures lib t (start_background_ints s p) (
          with_background
            (has_background s)
            (ground_color s p)
            (difference (front_color s p) (ground_color s p))
            (config t))
  start_back_section s p t h =
      rw (background_sent s p) (back_section (has_background s) (mixed s p) t h.back h.difference)

  -- `start` from the first 89 on
  behind_section :
      (s : Settings) (p : Palette) (u : Sketch)
      → IsSendable s p
      → Configures lib u
          ((pos 89 ∷ rgb (p.color s.color_default))
            ++ (start_background_ints s p ++ start_switches_ints s))
          (with_switches s (
            with_background
              (has_background s)
              (ground_color s p)
              (difference (front_color s p) (ground_color s p))
              (with_color (p.color s.color_default) (config u))))
  behind_section s p u h =
      let (fr, fg, fb) = h.front in
      Configures-trans lib
        (λ d. with_switches s (
          with_background (has_background s) (ground_color s p)
            (difference (front_color s p) (ground_color s p)) d))
        (color_section lib (p.color s.color_default) u fr fg fb)
        (λ v.
          Configures-trans lib (with_switches s) (start_back_section s p v h)
            (λ w. switches_section s w h.remain h.extend h.bright))

  -- All of `start`, behind what brings the sketch through `setup ()`
  pub from_setup :
      (s : Settings) (p : Palette) (t : Sketch) {u : Sketch} {xs : List ℤ}
      → IsSendable s p
      → Configures lib u xs (fresh lib (config t))
      → Configures lib u
          (xs
            ++ ((pos 89 ∷ rgb (p.color s.color_default))
                ++ (start_background_ints s p ++ start_switches_ints s)))
          (wanted s p (config t))
  from_setup s p t h first =
      let c = p.color s.color_default in
      let all =
        Configures-trans lib
          (λ d. with_switches s (
            with_background (has_background s) (ground_color s p)
              (difference (front_color s p) (ground_color s p)) (with_color c d)))
          first (λ v. behind_section s p v h) in
      record {
        after = all.after;
        steps = all.steps;
        set =
            all.set
            ∙ wanted_fresh (has_background s) s (ground_color s p)
                (difference (front_color s p) (ground_color s p)) c (config t);
      }

  -- All of `start`, behind the `125` that resets the sketch.
  pub start_section :
      (s : Settings) (p : Palette) (t : Sketch)
      → IsSendable s p
      → Configures lib t ((pos 125 ∷ []) ++ start_ints s p) (wanted s p (config t))
  start_section s p t h =
      let all = from_setup s p t h (reset_section lib t) in
      record { after = all.after; steps = all.steps; set = all.set }

-- `pta (125); push (); start (…);`, as the program selects a preset, in a state with nothing waiting
-- in its queue: the bytes that it writes bring the sketch, whatever its state, in front of `loop ()`
-- in the configuration that the settings ask for, if no argument is 0 as a byte.
pub start_configures :
    (lib : FastLed) (h : Host) {w : List ℕ} (t : Sketch)
    → Holds h.link [] w
    → IsSendable h.settings h.palette
    → (out : List ℕ) × (t' : Sketch) × ((start (send (pos 125 ∷ []) h)).link.wire ≡ w ++ out)
      × ((fuel : ℕ) → length out ≤ fuel → feed lib fuel t (bytes out) ≡ ready t')
      × (config t' ≡ wanted h.settings h.palette (config t))
start_configures lib h {w} t held sendable =
    let p =
      Pushes-trans (send-Pushes 0 (pos 125 ∷ []) h.link (omega arith))
        (Pushes-fewer {j = 0} (omega arith) (start-Pushes (send (pos 125 ∷ []) h))) in
    let c = start_section lib h.settings h.palette t sendable in
    (
      emits ((pos 125 ∷ []) ++ start_ints h.settings h.palette),
      c.after,
      (p.carry [] w (omega arith) held).wrote,
      λ fuel enough. feed-Steps lib fuel enough c.steps,
      c.set,
    )
