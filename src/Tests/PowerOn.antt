-- ===== src/Tests/PowerOn.antt =====
-- `main` from its start and the sketch from `setup ()`, and the choice of a preset, with its files.
use effect_piano_light_contr.Base.{
  ◌≡◌, ◌≤◌, ◌++◌, refl, ℕ, List, [], ◌∷◌, Option, some, arith, if◌then◌else◌, length,
}
use effect_piano_light_contr.Base.Int.{pos, ◌-ℤ◌}
use effect_piano_light_contr.Host.Link.Fifo.{Holds}
use effect_piano_light_contr.Host.Text.{Lines, Word, num, text, scan_word, scan_int}
use effect_piano_light_contr.Host.State.{Host, Catalog, Extension, efpdata, efpcolor}
use effect_piano_light_contr.Host.Palette.{Palette, print_palette, same_index}
use effect_piano_light_contr.Host.Settings.File.{layout}
use effect_piano_light_contr.Host.Presets.{select_set, read_list, read_names, read_name}
use effect_piano_light_contr.Host.Serial.{opened}
use effect_piano_light_contr.Host.Devices.{get_number}
use effect_piano_light_contr.Host.Main.{idle, waiting, drain, World, main_loop, main, running}
use effect_piano_light_contr.Sketch.State.{Sketch}
use effect_piano_light_contr.Sketch.Serial.{bytes, done}
use effect_piano_light_contr.Sketch.Commands.{setup}
use effect_piano_light_contr.Sketch.Loop.{feed, ready}
use effect_piano_light_contr.Sketch.Config.{config}
use effect_piano_light_contr.System.Agrees.{Agrees, switches, shades, source, IsReady}
use effect_piano_light_contr.System.PowerOn.Files.{Stored, Opens, described}
use effect_piano_light_contr.System.PowerOn.{main_in_step}
use effect_piano_light_contr.System.Start.{wanted}
use effect_piano_light_contr.System.Select.{chosen, choose_preset_in_step, set_select_lags}
use effect_piano_light_contr.Host.Keys.{choose_preset}
use effect_piano_light_contr.Host.Console.{goes, top, set_select}
use effect_piano_light_contr.Tests.Lights.{some_settings-IsSendable}
use effect_piano_light_contr.Tests.Data.{
  library, some_settings, some_palette, some_host, some_sketch,
}
use effect_piano_light_contr.Tests.Files.{some_settings-FitsChannels}
use effect_piano_light_contr.Tests.Steps.{no_tenths, some_host-IsReady}
use effect_piano_light_contr.Tests.Session.{some_moments, some_moments-ArePlain}
use effect_piano_light_contr.Tests.Links.{empty_link-Holds}

abbrev ten_colors : Palette
ten_colors = record some_palette { num_color = pos 10 }

-- The files of the preset
abbrev files : Option Word → Extension → Option Lines
files name efpdata = some (layout (text "serial:" ∷ []) some_settings)
files name efpcolor = some (print_palette ten_colors)

abbrev stored : Host
stored = record some_host { disk = files }

abbrev plain_world : World
plain_world = record {
  list = (num (pos 1) ∷ []) ∷ (text "default" ∷ []) ∷ [];
  serial_file = (text "COM3" ∷ []) ∷ [];
  chosen = (num (pos 1) ∷ []) ∷ [];
  typed = (text "x" ∷ []) ∷ (num (pos 1) ∷ []) ∷ [];
  attempts = opened ∷ [];
  polls = waiting (record { status = 144; data1 = 60 }) ∷ idle ∷ [];
  moments = some_moments;
}

-- The list has one name.
abbrev listed : Catalog
listed = record {
  num_set = pos 1;
  using_set = pos 0;
  name_set = λ j. if same_index j 0 then some (text "default") else some_host.catalog.name_set j;
}

listed_chosen :
    select_set plain_world.list stored.catalog plain_world.chosen ≡ some (listed, [] ∷ [])
unfolding select_set read_list read_names read_name scan_word scan_int ◌-ℤ◌
listed_chosen = refl

all-Stored : (c : Catalog) → Stored stored c some_settings ten_colors
all-Stored c = record {
  line = text "serial:" ∷ [];
  settings = refl;
  colors = refl;
  port = text "COM3";
  named = refl;
  old_fits = some_settings-FitsChannels;
  fits = some_settings-FitsChannels;
  last = 9;
  count = refl;
  ten = omega arith;
  few = omega arith;
}

device_number : get_number (length plain_world.typed) plain_world.typed ≡ some (pos 1, [])
unfolding get_number
device_number = refl

emptied : drain plain_world.polls ≡ some []
unfolding drain
emptied = refl

abbrev plain_world-Opens : Opens plain_world
plain_world-Opens = record {
  later = [];
  port = refl;
  device = pos 1;
  left = [];
  number = device_number;
  behind = [];
  drained = emptied;
}

main_in_step_example :
    (first : Host) × (g : Host) × (main no_tenths plain_world stored
      ≡ main_loop no_tenths plain_world.list plain_world.moments plain_world-Opens.left first)
    × (switches first ≡ switches (described stored listed some_settings ten_colors))
    × (shades first ≡ shades (described stored listed some_settings ten_colors))
    × (main no_tenths plain_world stored ≡ running g)
    × IsReady 3 (source g)
    × ((out : List ℕ) × (rest : List ℕ) × (woke : Sketch) × (u : Sketch) × Holds g.link []
          ([] ++ out)
        × (setup some_sketch (bytes out) ≡ done woke (bytes rest))
        × ((fuel : ℕ) → length rest ≤ fuel → feed library fuel woke (bytes rest) ≡ ready u)
        × Agrees (switches g) (shades g) (config u))
main_in_step_example =
    main_in_step library 3 no_tenths plain_world stored some_sketch empty_link-Holds
      ([] ∷ [], listed_chosen) (all-Stored listed) plain_world-Opens some_host-IsReady (omega arith)
      some_moments-ArePlain

choose_preset_in_step_example :
    (g : Host) × (choose_preset 0 stored ≡ some g)
    × (switches g ≡ switches (described stored (chosen 0 stored) some_settings ten_colors))
    × (shades g ≡ shades (described stored (chosen 0 stored) some_settings ten_colors))
    × IsReady 3 (source g)
    × ((out : List ℕ) × (u : Sketch) × Holds g.link [] ([] ++ out)
        × ((fuel : ℕ) → length out ≤ fuel → feed library fuel some_sketch (bytes out) ≡ ready u)
        × Agrees (switches g) (shades g) (config u))
choose_preset_in_step_example =
    choose_preset_in_step library 3 0 stored some_sketch empty_link-Holds
      (all-Stored (chosen 0 stored)) some_host-IsReady (omega arith)

set_select_lags_example :
    (g : Host) × (set_select plain_world.list plain_world.chosen stored ≡ goes top ([] ∷ []) g)
    × ((i : ℕ) → i ≤ 9 → g.palette.color (pos i) ≡ ten_colors.color (pos i))
    × (switches g ≡ switches stored)
    × ((out : List ℕ) × (u : Sketch) × (g.link.wire ≡ [] ++ out)
        × ((fuel : ℕ) → length out ≤ fuel → feed library fuel some_sketch (bytes out) ≡ ready u)
        × (config u ≡ wanted some_settings some_palette (config some_sketch)))
set_select_lags_example =
    set_select_lags library plain_world.list plain_world.chosen stored some_sketch {c = listed}
      ten_colors 9 empty_link-Holds listed_chosen refl refl (omega arith) refl
      some_settings-IsSendable
