-- ===== src/Tests/Files.antt =====
-- The files at concrete inputs.
use effect_piano_light_contr.Base.{refl, ◌≡◌, ℕ, ◌≤◌, true, [], ◌∷◌, none, some, arith}
use effect_piano_light_contr.Base.Int.{pos}
use effect_piano_light_contr.Host.Text.{text}
use effect_piano_light_contr.Host.Settings.File.{FitsChannels, layout, loaded}
use effect_piano_light_contr.Host.Palette.{Palette, read_color, print_palette}
use effect_piano_light_contr.Host.Palette.File.{read_color-print}
use effect_piano_light_contr.Host.State.{Host, write_set}
use effect_piano_light_contr.Host.Presets.{load_set}
use effect_piano_light_contr.Host.Presets.Reload.{load_set-write_set, load_set-layout}
use effect_piano_light_contr.Tests.Data.{some_settings, some_palette, some_host}

pub some_settings-FitsChannels : FitsChannels some_settings
some_settings-FitsChannels = record {
  using_size = refl;
  ignore_size = refl;
  using_fits = omega arith;
  ignore_fits = omega arith;
}

load_set-write_set_example : load_set (pos 0) (write_set (pos 0) some_host) ≡ none
load_set-write_set_example = load_set-write_set (pos 0) some_host refl some_settings-FitsChannels

-- The file of the preset has a line in front of the port's name.
abbrev stored : Host
stored = record some_host { disk = λ name e. some (layout (text "serial:" ∷ []) some_settings) }

load_set-layout_example :
    load_set (pos 0) stored ≡ some (record stored { settings = loaded some_settings some_settings })
load_set-layout_example =
    load_set-layout (pos 0) stored (text "serial:" ∷ []) some_settings refl refl
      some_settings-FitsChannels some_settings-FitsChannels

abbrev no_colors : Palette
no_colors = record some_palette { num_color = pos 0; color = λ i. some_palette.color_plus }

read_color-print_example :
    (q : Palette) × (read_color no_colors (print_palette some_palette) ≡ some ((true, q), [] ∷ []))
    × (q.num_color ≡ pos 2)
    × ((i : ℕ) → i ≤ 1 → q.color (pos i) ≡ some_palette.color (pos i))
read_color-print_example = read_color-print no_colors some_palette 1 refl (omega arith)
