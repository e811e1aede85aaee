-- ===== src/Host/Presets/Reload.antt =====
-- A preset that the program has saved, loaded again.
use package.text.Mathlib.TextPositions.{eq_refl}
use effect_piano_light_contr.Base.{
  ◌∙◌, ap, ◌&&◌, if◌then◌else◌, ◌≡◌, refl, true, Option, none, some, ==_iff, List,
}
use effect_piano_light_contr.Base.Int.{ℤ, pos, negsuc}
use effect_piano_light_contr.Host.Text.{Word, num, text, Lines}
use effect_piano_light_contr.Host.Settings.{Settings, read_set, print_set}
use effect_piano_light_contr.Host.Settings.File.{
  FitsChannels, layout, loaded, read_set-print_set, read_set-layout,
}
use effect_piano_light_contr.Host.State.{Host, efpdata, same_name, write_set}
use effect_piano_light_contr.Host.Presets.{load_set, with_settings, text_of}

same_name_refl : (name : Option Word) → same_name name name ≡ true
same_name_refl none = refl
same_name_refl (some (num (pos n))) = (==_iff n n).1 refl
same_name_refl (some (num (negsuc n))) = (==_iff n n).1 refl
same_name_refl (some (text s)) = eq_refl s

-- What `load_set` does with a file that is there.
load_set_reads :
    (i : ℤ) (h : Host) {ls : Lines} {r : Option (Settings × Lines)}
    → h.disk (h.catalog.name_set i) efpdata ≡ some ls
    → read_set h.settings ls ≡ r
    → load_set i h ≡ with_settings h r
unfolding load_set
load_set_reads i h d e =
    ap (λ f. with_settings h (read_set h.settings (text_of f))) d ∙ ap (with_settings h) e

-- Once `write_set` has saved a preset, loading the preset again reads an indeterminate number: for
-- every state of the program in which a serial port is named and the channels fit their arrays.
pub load_set-write_set :
    (i : ℤ) (h : Host) {w : Word}
    → h.settings.serial_name ≡ some w
    → FitsChannels h.settings
    → load_set i (write_set i h) ≡ none
unfolding write_set
load_set-write_set i h e f =
    load_set_reads i (write_set i h)
      (ap
        (λ b.
          if b && true then some (print_set h.settings) else h.disk (h.catalog.name_set i) efpdata)
        (same_name_refl (h.catalog.name_set i)))
      (read_set-print_set h.settings h.settings e f f)

-- A preset whose file has the line that `print_set` leaves out is loaded as it was saved: every
-- setting is that of `s`, but for the part of the channel arrays that is not in use, and for
-- `on_using_channel`, which is whether the number of channels in use is not 0; for every state of the
-- program and settings `s` in which a serial port is named and the channels fit their arrays.
pub load_set-layout :
    (i : ℤ) (h : Host) (line : List Word) (s : Settings) {w : Word}
    → h.disk (h.catalog.name_set i) efpdata ≡ some (layout line s)
    → s.serial_name ≡ some w
    → FitsChannels h.settings
    → FitsChannels s
    → load_set i h ≡ some (record h { settings = loaded h.settings s })
load_set-layout i h line s d e f g = load_set_reads i h d (read_set-layout line h.settings s e f g)
