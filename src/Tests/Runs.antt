-- ===== src/Tests/Runs.antt =====
-- Whole runs of the program, sessions in its console and the choice of a device at concrete inputs.
use effect_piano_light_contr.Base.{
  ◌≡◌, ◌||◌, ◌==◌, true, false, List, [], ◌∷◌, Option, none, some, arith,
}
use effect_piano_light_contr.Base.Int.{ℤ, pos}
use effect_piano_light_contr.Host.Text.{Lines, Word, num, text}
use effect_piano_light_contr.Host.State.{Host, Extension, efpdata, efpcolor}
use effect_piano_light_contr.Host.Palette.{print_palette}
use effect_piano_light_contr.Host.Settings.File.{layout}
use effect_piano_light_contr.Host.Serial.{opened}
use effect_piano_light_contr.Host.Devices.{Device, input_only, list_devices, get_number}
use effect_piano_light_contr.Host.Devices.Numbers.{
  inputs_from, numbers, get_number_lem, numbers-list_devices,
}
use effect_piano_light_contr.Host.Console.Handlers.{ReadsOn}
use effect_piano_light_contr.Host.Keys.{Keyboard}
use effect_piano_light_contr.Host.Midi.{Message}
use effect_piano_light_contr.Host.Main.{idle, waiting, error, drain, World, main}
use effect_piano_light_contr.Host.Main.Runs.{
  done, also, read, ignored, drain_lem, Sound, main-Sound,
}
use effect_piano_light_contr.Tests.Data.{some_settings, some_palette, some_host, pressed}
use effect_piano_light_contr.Tests.Links.{empty_link-IsValid}

-- No number is read in tenths.
abbrev no_tenths : Lines → Option ℤ × Lines
no_tenths ls = (none, ls)

no_tenths-ReadsOn : ReadsOn no_tenths
no_tenths-ReadsOn ls = omega arith

abbrev key_60 : Message
key_60 = record { status = 144; data1 = 60 }

-- Shift and `>` are down.
abbrev shifted : Keyboard
shifted = record { down = λ k. k == 16 || k == 190; capslock = false }

-- The preset and its colours are there.
abbrev files : Option Word → Extension → Option Lines
files name efpdata = some (layout (text "serial:" ∷ []) some_settings)
files name efpcolor = some (print_palette some_palette)

abbrev stored : Host
stored = record some_host { disk = files }

abbrev some_world : World
some_world = record {
  list = (num (pos 1) ∷ []) ∷ (text "default" ∷ []) ∷ [];
  serial_file = (text "COM3" ∷ []) ∷ [];
  chosen = (num (pos 1) ∷ []) ∷ [];
  typed = (text "x" ∷ []) ∷ (num (pos 1) ∷ []) ∷ [];
  attempts = opened ∷ [];
  polls = waiting key_60 ∷ idle ∷ [];
  moments =
      record { keyboard = pressed b'C'; typed = []; poll = waiting key_60 }
      ∷ record { keyboard = shifted; typed = (text "quit" ∷ []) ∷ []; poll = idle }
      ∷ [];
}

main-Sound_example : Sound (main no_tenths some_world stored)
main-Sound_example =
    main-Sound no_tenths some_world {h = stored} no_tenths-ReadsOn
      (record { valid = empty_link-IsValid })

drain_lem_example :
    (drain (waiting key_60 ∷ error ∷ []) ≡ none)
    × (drain (waiting key_60 ∷ error ∷ idle ∷ error ∷ []) ≡ some (error ∷ []))
drain_lem_example = drain_lem (error ∷ []) (also read (also ignored done))

abbrev typed : Lines
typed = (text "set" ∷ text "brightness" ∷ num (pos 9) ∷ []) ∷ (text "quit" ∷ []) ∷ []

get_number_lem_example :
    get_number 2 ((text "x" ∷ []) ∷ (num (pos 1) ∷ text "y" ∷ []) ∷ typed) ≡ some (pos 1, typed)
get_number_lem_example =
    get_number_lem 2 ((text "x" ∷ []) ∷ []) (pos 1) (text "y" ∷ []) typed tt (omega arith)

abbrev devices : List Device
devices =
    record { interf = "MMSystem"; name = "mapper"; input = false; output = true }
    ∷ record { interf = "MMSystem"; name = "piano"; input = true; output = false }
    ∷ []

numbers-list_devices_example :
    numbers (list_devices input_only (pos 1) (pos 0) 0 devices) ≡ inputs_from 0 devices
numbers-list_devices_example = numbers-list_devices (pos 1) (pos 0) 0 devices
