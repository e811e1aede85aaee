-- ===== src/Tests/Steps.antt =====
-- The keys of the program and the sketch together at concrete inputs.
use mathlib.Core.Path.{subst}
use effect_piano_light_contr.Base.{
  ◌<◌, ◌≢◌, ap, sym, ◌∙◌, refl, ◌≡◌, ◌⊎◌, inl, inr, ◌==◌, ◌≤◌, ℕ, Bool-cases, true, false, List, [],
  ◌∷◌, suc, ◌++◌, length, Option, none, some, ◌+◌, ◌*◌, arith, if◌then◌else◌,
}
use effect_piano_light_contr.Base.Int.{ℤ, pos, ◌*ℤ◌, ◌-ℤ◌}
use effect_piano_light_contr.Host.Link.Fifo.{Holds}
use effect_piano_light_contr.Host.Palette.{Color}
use effect_piano_light_contr.Host.State.{Host, send}
use effect_piano_light_contr.Host.Lights.{start}
use effect_piano_light_contr.System.Begin.{start_in_step}
use effect_piano_light_contr.Tests.Lights.{some_settings-IsSendable}
use effect_piano_light_contr.Host.Keys.{background_switch, rainbow_key}
use effect_piano_light_contr.Host.Text.{Lines}
use effect_piano_light_contr.Sketch.State.{num_leds, crgb, Sketch}
use effect_piano_light_contr.Sketch.Serial.{bytes}
use effect_piano_light_contr.Sketch.Loop.{feed, ready}
use effect_piano_light_contr.Host.Midi.{Message, on_message, is_heard, has_channel}
use effect_piano_light_contr.Host.Midi.Timer.{quiet_rounds, fades_sent, timer_period}
use effect_piano_light_contr.Sketch.Keys.Extent.{extent, IsSafe}
use effect_piano_light_contr.Sketch.Orders.{
  none_more, one_more, remain_on, key, fade, circle_on, orders_stay_in_range,
}
use effect_piano_light_contr.System.Play.{
  ArePlayable, silence, then_play, rounds, tune_stays_in_range, top_key_clears,
}
use effect_piano_light_contr.Sketch.Config.{config}
use effect_piano_light_contr.System.Mixing.{dimmed, difference}
use effect_piano_light_contr.System.Agrees.{Agrees, switches, shades, source, HasKey, IsReady}
use effect_piano_light_contr.System.Twice.{background_switch_twice}
use effect_piano_light_contr.System.Rainbow.{hold, left_over, rainbow_over}
use effect_piano_light_contr.System.Start.{IsSentColor}
use effect_piano_light_contr.Tests.Data.{library, white, blue, some_palette, some_host, some_sketch}
use effect_piano_light_contr.Tests.Links.{empty_link-Holds}

-- No number is read in tenths.
abbrev pub no_tenths : Lines → Option ℤ × Lines
no_tenths ls = (none, ls)

-- The two colours of the palette
white_or_blue : {c : ℤ} → HasKey c → (some_palette.color c ≡ white) ⊎ (some_palette.color c ≡ blue)
white_or_blue {c} (n, few, e) = elim (Bool-cases (n == 0)) [
  | inl z ↦ inl (ap some_palette.color e ∙ ap (λ b. if b then white else blue) z)
  | inr z ↦ inr (ap some_palette.color e ∙ ap (λ b. if b then white else blue) z)
]

white_sent : IsSentColor white
white_sent = (omega arith, omega arith, omega arith)

blue_sent : IsSentColor blue
blue_sent = (omega arith, omega arith, omega arith)

front_sent : (x : Color) → (x ≡ white) ⊎ (x ≡ blue) → IsSentColor x
front_sent x (inl e) = subst IsSentColor (sym e) white_sent
front_sent x (inr e) = subst IsSentColor (sym e) blue_sent

back_sent : (x : Color) → (x ≡ white) ⊎ (x ≡ blue) → IsSentColor (dimmed (pos 128) x)
unfolding ◌*ℤ◌
back_sent x (inl e) =
    subst (λ y. IsSentColor (dimmed (pos 128) y)) (sym e) (omega arith, omega arith, omega arith)
back_sent x (inr e) =
    subst (λ y. IsSentColor (dimmed (pos 128) y)) (sym e) (omega arith, omega arith, omega arith)

pair_sent :
    {x y v w : Color}
    → x ≡ v
    → y ≡ w
    → IsSentColor (difference v (dimmed (pos 128) w))
    → IsSentColor (difference x (dimmed (pos 128) y))
pair_sent {x} {y} {v} {w} e f p =
    subst (λ z. IsSentColor (difference z (dimmed (pos 128) y))) (sym e)
      (subst (λ z. IsSentColor (difference v (dimmed (pos 128) z))) (sym f) p)

plus_sent :
    (x y : Color)
    → (x ≡ white) ⊎ (x ≡ blue)
    → (y ≡ white) ⊎ (y ≡ blue)
    → IsSentColor (difference x (dimmed (pos 128) y))
unfolding ◌*ℤ◌ ◌-ℤ◌
plus_sent x y (inl e) (inl f) = pair_sent e f (omega arith, omega arith, omega arith)
plus_sent x y (inl e) (inr f) = pair_sent e f (omega arith, omega arith, omega arith)
plus_sent x y (inr e) (inl f) = pair_sent e f (omega arith, omega arith, omega arith)
plus_sent x y (inr e) (inr f) = pair_sent e f (omega arith, omega arith, omega arith)

pub some_host-IsReady : IsReady 3 (source some_host)
some_host-IsReady = record {
  quiet = refl;
  slow = λ e. cc;
  few_sets = omega arith;
  lit = refl;
  extend = omega arith;
  few = omega arith;
  remain = omega arith;
  front_key = (0, omega arith, refl);
  back_key = (1, omega arith, refl);
  color = λ k. front_sent _ (white_or_blue k);
  back = λ k. back_sent _ (white_or_blue k);
  contrast = λ k l. plus_sent _ _ (white_or_blue k) (white_or_blue l);
}

-- The sketch in step with the settings
abbrev pub lit_sketch : Sketch
lit_sketch = record some_sketch {
  level = 20;
  numofextend = 3;
  rm_status = true;
  rm_time = 4;
  on_background = true;
  r = 190;
  g = 160;
  b = 40;
  br = 10;
  bg = 20;
  bb = 120;
}

pub lit_sketch-Agrees : Agrees (switches some_host) (shades some_host) (config lit_sketch)
unfolding ◌*ℤ◌ ◌-ℤ◌
lit_sketch-Agrees = record {
  circle = refl;
  ends = refl;
  brightness = refl;
  extend = refl;
  extend_count = λ e. refl;
  remain = refl;
  remain_time = λ e. refl;
  background = refl;
  back_lit = λ e. (refl, refl, refl);
  keys_lit = λ e. (refl, refl, refl);
  keys_unlit = λ e. cc;
}

abbrev unlit_host : Host
unlit_host = record some_host { settings = record (some_host.settings) { on_background = false } }

background_switch_twice_example :
    ((background_switch (background_switch unlit_host)).settings ≡ unlit_host.settings)
    × ((out : List ℕ) × (u : Sketch) × Holds
          (background_switch (background_switch unlit_host)).link
          []
          ([] ++ out)
        × ((fuel : ℕ) → length out ≤ fuel → feed library fuel some_sketch (bytes out) ≡ ready u)
        × (config u ≡ record (config some_sketch) {
          red = 190;
          green = 160;
          blue = 40;
          back_red = 10;
          back_green = 20;
          back_blue = 120;
          background = false;
        }))
unfolding ◌*ℤ◌ ◌-ℤ◌
background_switch_twice_example =
    background_switch_twice library unlit_host some_sketch empty_link-Holds refl refl
      (back_sent blue (inr refl)) (plus_sent white blue (inl refl) (inr refl))

rainbow_over_example :
    ((rainbow_key false (hold 3 some_host)).settings ≡ some_host.settings)
    × ((rainbow_key false (hold 3 some_host)).panel.on_rainbow ≡ false)
    × ((out : List ℕ) × (u : Sketch) × Holds
          (rainbow_key false (hold 3 some_host)).link
          (left_over true (pos 20))
          ([] ++ out)
        × ((fuel : ℕ) → length out ≤ fuel → feed library fuel some_sketch (bytes out) ≡ ready u)
        × (u.rbstatus ≡ false)
        × (config u ≡ record (config some_sketch) { brightness = 20; circle_on = true }))
rainbow_over_example =
    rainbow_over library 2 some_host some_sketch empty_link-Holds refl (λ e. omega arith)

-- A tune with the keys 40 and 41, and a round with no message
abbrev tune : List (Option Message)
tune =
    some (record { status = 144; data1 = 60 })
    ∷ none
    ∷ some (record { status = 144; data1 = 61 })
    ∷ []

tune-ArePlayable : ArePlayable 3 tune
tune-ArePlayable =
    then_play (40, refl, omega arith, omega arith, omega arith)
      (then_play tt (then_play (41, refl, omega arith, omega arith, omega arith) silence))

lit_sketch-IsSafe : IsSafe 3 (extent (config lit_sketch))
lit_sketch-IsSafe = record { reach = λ e. omega arith; time = λ e. omega arith }

tune_stays_in_range_example :
    (out : List ℕ) × (t : Sketch) × Holds (rounds tune some_host).link [] ([] ++ out)
    × ((fuel : ℕ) → length out ≤ fuel → feed library fuel lit_sketch (bytes out) ≡ ready t)
    × IsSafe 3 (extent (config t))
tune_stays_in_range_example =
    tune_stays_in_range library 3 tune some_host lit_sketch empty_link-Holds tune-ArePlayable
      lit_sketch-IsSafe

orders_stay_in_range_example :
    (t : Sketch) × (feed library 6 lit_sketch (bytes (98 ∷ 4 ∷ 40 ∷ 100 ∷ 91 ∷ 2 ∷ [])) ≡ ready t)
    × IsSafe 3 (extent (config t))
orders_stay_in_range_example =
    orders_stay_in_range library 3 6 lit_sketch
      (one_more (remain_on 4 (omega arith)) (
        one_more (key 40 (omega arith) (omega arith) (omega arith)) (
          one_more fade (
            one_more circle_on
              (one_more (key 2 (omega arith) (omega arith) (omega arith)) none_more)))))
      lit_sketch-IsSafe (omega arith)

-- The timer is set to send 100 every 6 rounds.
timer_period_example :
    ((quiet_rounds (2 * suc 5 + 3) some_host).link ≡ fades_sent 2 some_host.link)
    × ((quiet_rounds (2 * suc 5 + 3) some_host).panel.rm_timer ≡ pos 3)
timer_period_example = timer_period 5 2 3 some_host refl refl refl refl (omega arith)

abbrev key_108 : Message
key_108 = record { status = 144; data1 = 108 }

top_key_clears_example :
    Holds (on_message key_108 some_host).link [] ([] ++ 88 ∷ [])
    × ((t : Sketch) × (feed library 1 lit_sketch (bytes (88 ∷ [])) ≡ ready t)
        × ((k : ℕ) → t.flag k ≡ false)
        × (t.circle ≡ 0)
        × ((i : ℕ) → i < num_leds → i ≢ 0 → i ≢ 177 → t.leds i ≡ crgb 0 0 0)
        × (t.leds 0 ≡ (if lit_sketch.flagz then crgb 140 154 255 else crgb 0 0 0))
        × (t.leds 177 ≡ (if lit_sketch.flagz then crgb 140 154 255 else crgb 0 0 0))
        × (t.shown ≡ t.leds)
        × (config t ≡ config lit_sketch))
unfolding is_heard has_channel
top_key_clears_example =
    top_key_clears library key_108 some_host lit_sketch empty_link-Holds (λ l i small. refl) refl
      refl

start_in_step_example :
    IsReady 3 (source (start (send (pos 125 ∷ []) some_host)))
    × ((out : List ℕ) × (u : Sketch) × Holds
          (start (send (pos 125 ∷ []) some_host)).link
          []
          ([] ++ out)
        × ((fuel : ℕ) → length out ≤ fuel → feed library fuel some_sketch (bytes out) ≡ ready u)
        × Agrees
            (switches (start (send (pos 125 ∷ []) some_host)))
            (shades (start (send (pos 125 ∷ []) some_host)))
            (config u))
start_in_step_example =
    start_in_step library 3 some_host some_sketch empty_link-Holds some_host-IsReady
      some_settings-IsSendable
