-- ===== src/Tests/Lights.antt =====
-- The lights at concrete inputs: what the program writes, and what the sketch makes of it.
use effect_piano_light_contr.Base.{
  true, refl, ◌≡◌, replicate, ◌==◌, if◌then◌else◌, ◌↔◌, ℕ, ◌≤◌, ◌<◌, false, inl, List, [], ◌∷◌,
  ◌++◌, length, some, arith,
}
use effect_piano_light_contr.Base.Int.{pos, ◌*ℤ◌, ◌-ℤ◌}
use effect_piano_light_contr.Host.Link.Fifo.{Holds, emits}
use effect_piano_light_contr.Host.Palette.{Color, get_bg_color}
use effect_piano_light_contr.Host.State.{send}
use effect_piano_light_contr.Host.Lights.Effect.{tally, effect1_twice}
use effect_piano_light_contr.Host.Lights.{effect1, rgb, start}
use effect_piano_light_contr.Host.Lights.Wire.{Pushes, start_ints, start-Pushes}
use effect_piano_light_contr.Sketch.State.{Sketch, crgb}
use effect_piano_light_contr.Sketch.Serial.{bytes}
use effect_piano_light_contr.Sketch.Loop.{feed, ready, inside}
use effect_piano_light_contr.Sketch.Keys.{run_key, is_positive}
use effect_piano_light_contr.Sketch.Keys.Fading.{fades_out}
use effect_piano_light_contr.Sketch.Keys.Bounds.{IsInReach, run_key_iff}
use effect_piano_light_contr.Sketch.Keys.Toggle.{HasRoom, share, key_on_off}
use effect_piano_light_contr.Sketch.Commands.Background.{NoOverflow, background_on_off}
use effect_piano_light_contr.Sketch.Config.{config}
use effect_piano_light_contr.System.Start.{IsSendable, wanted, start_configures}
use effect_piano_light_contr.System.Zero.{color_waits}
use effect_piano_light_contr.Tests.Data.{
  library, library-Saturates, some_settings, some_palette, some_host, some_sketch,
}
use effect_piano_light_contr.Tests.Links.{empty_link-Holds}

pub some_settings-IsSendable : IsSendable some_settings some_palette
unfolding get_bg_color ◌*ℤ◌ ◌-ℤ◌
some_settings-IsSendable = record {
  front = (omega arith, omega arith, omega arith);
  back = λ e. (omega arith, omega arith, omega arith);
  difference = λ e. (omega arith, omega arith, omega arith);
  remain = λ e. omega arith;
  extend = λ e. omega arith;
  bright = omega arith;
}

start_configures_example :
    (out : List ℕ) × (t' : Sketch) × ((start (send (pos 125 ∷ []) some_host)).link.wire ≡ [] ++ out)
    × ((fuel : ℕ) → length out ≤ fuel → feed library fuel some_sketch (bytes out) ≡ ready t')
    × (config t' ≡ wanted some_settings some_palette (config some_sketch))
start_configures_example =
    start_configures library some_host some_sketch empty_link-Holds some_settings-IsSendable

start-Pushes_example :
    Pushes 100 some_host.link (start some_host).link (start_ints some_settings some_palette)
start-Pushes_example = start-Pushes some_host

-- A colour with no red.
abbrev green : Color
green = record { r = pos 0; g = pos 255; b = pos 10 }

color_waits_example : feed library 4 some_sketch (bytes (emits (pos 89 ∷ rgb green))) ≡ inside
color_waits_example = color_waits library some_sketch green 3 (inl refl)

run_key_iff_example :
    ((t : Sketch) × (run_key library 2 some_sketch ≡ some t)) ↔ IsInReach 2 some_sketch
run_key_iff_example = run_key_iff library 2 some_sketch (omega arith) (omega arith)

background_on_off_example :
    (t' : Sketch) × (feed library 5 some_sketch (bytes (102 ∷ 10 ∷ 20 ∷ 120 ∷ 103 ∷ [])) ≡ ready t')
    × (t'.on_background ≡ false)
    × ((j : ℕ) → NoOverflow (some_sketch.leds j) (crgb 10 20 120) → t'.leds j ≡ some_sketch.leds j)
background_on_off_example =
    background_on_off library-Saturates some_sketch 10 20 120 5 (omega arith)

-- Key 40 reaches from LED 74 to LED 84.
in_reach : IsInReach 40 some_sketch
in_reach = λ e. (omega arith, omega arith)

key_on_off_example :
    (t' : Sketch) × (feed library 2 some_sketch (bytes (40 ∷ 40 ∷ [])) ≡ ready t')
    × (t'.flag 40 ≡ false)
    × ((j : ℕ)
        → j < 227
        → HasRoom (share some_sketch 40 j) (some_sketch.leds j)
        → t'.leds j ≡ some_sketch.leds j)
key_on_off_example =
    key_on_off library-Saturates some_sketch 40 2 (omega arith) (omega arith) (omega arith) refl
      refl refl refl in_reach

effect1_twice_example :
    (out : List ℕ) × Holds (effect1 10 some_host).link [] ([] ++ out)
    × ((j : ℕ) → 1 ≤ j → j ≤ 87 → tally j out ≡ 2)
    × (length out ≡ 177)
effect1_twice_example = effect1_twice 10 some_host (omega arith) empty_link-Holds

-- Key 40 fades for 20 rounds, and key 41 has counted past 127.
abbrev fading : Sketch
fading = record some_sketch {
  rm_status = true;
  rm_time = 20;
  rm_times = λ i. if i == 40 then 20 else if i == 41 then 130 else 0;
}

fades_out_example :
    (t' : Sketch) × (feed library 127 fading (bytes (replicate 127 100)) ≡ ready t')
    × ((j : ℕ) → 1 ≤ j → j ≤ 88 → is_positive (t'.rm_times j) ≡ false)
    × ((j : ℕ) → 1 ≤ j → j ≤ 88 → 128 ≤ fading.rm_times j → t'.rm_times j ≡ fading.rm_times j)
fades_out_example =
    fades_out library fading 127 127 refl (omega arith) refl refl (omega arith) (omega arith)
