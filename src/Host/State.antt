-- ===== src/Host/State.antt =====
-- The globals of Effect_Piano/Effect_Piano.cpp together, the files beside the program, and
-- `write_set`.
use package.text.Mathlib.Text.{◌==◌ as str_eq}
use effect_piano_light_contr.Base.{
  Bool, true, false, List, Option, none, some, ◌==◌, ◌&&◌, if◌then◌else◌,
}
use effect_piano_light_contr.Base.Int.{ℤ, pos, negsuc}
use effect_piano_light_contr.Host.Link
use effect_piano_light_contr.Host.Link.{Link}
use effect_piano_light_contr.Host.Text.{Word, num, text, Lines}
use effect_piano_light_contr.Host.Settings.{Settings, print_set}
use effect_piano_light_contr.Host.Palette.{Palette, print_palette}

-- The cooldowns of the keys, the two rainbow switches and the timer of the fading.
pub record Panel : Type 0 where
  pub kbcd : ℤ
  pub kbecd : ℤ
  pub cdplus : ℤ
  pub on_rainbow : Bool
  pub contain_rainbow : Bool
  pub rm_times : ℤ
  pub rm_timer : ℤ

-- The list of presets. `name_set[128]` is the memory from its first element on.
pub record Catalog : Type 0 where
  pub num_set : ℤ
  pub using_set : ℤ
  pub name_set : ℤ → Option Word

-- `<name>.efpdata` and `<name>.efpcolor`
pub data Extension : Type 0 where
  efpdata efpcolor : Extension

-- What the files hold; `none` is a file that is not there.
abbrev pub Disk : Type 0
Disk = Option Word → Extension → Option Lines

pub record Host : Type 0 where
  pub link : Link
  pub settings : Settings
  pub palette : Palette
  pub panel : Panel
  pub catalog : Catalog
  pub disk : Disk

-- Equality of names, as the file system compares them.
abbrev pub same_int : ℤ → ℤ → Bool
same_int (pos m) (pos n) = m == n
same_int (negsuc m) (negsuc n) = m == n
same_int _ _ = false

abbrev pub same_name : Option Word → Option Word → Bool
same_name none none = true
same_name (some (num m)) (some (num n)) = same_int m n
same_name (some (text s)) (some (text t)) = str_eq s t
same_name _ _ = false

abbrev pub same_extension : Extension → Extension → Bool
same_extension efpdata efpdata = true
same_extension efpcolor efpcolor = true
same_extension _ _ = false

-- `freopen (…, "w", stdout)`, and what is printed until stdout is the console again.
abbrev pub write_file : Option Word → Extension → Lines → Disk → Disk
write_file name ext ls disk n e =
    if same_name name n && same_extension ext e then some ls else disk n e

-- `pta (x₁); … pta (xₙ); push ();`
abbrev pub send : List ℤ → Host → Host
send xs h = record h { link = Link.send xs h.link }

-- `pta (x₁); … pta (xₙ);` with no `push`
abbrev pub pta_all : List ℤ → Host → Host
pta_all xs h = record h { link = Link.pta_all xs h.link }

-- `write_set (useset)`
unfoldable pub write_set : ℤ → Host → Host
write_set useset h = record h {
  disk = write_file (h.catalog.name_set useset) efpdata (print_set h.settings) h.disk;
}

-- `write_color (useset)`
unfoldable pub write_color : ℤ → Host → Host
write_color useset h = record h {
  disk = write_file (h.catalog.name_set useset) efpcolor (print_palette h.palette) h.disk;
}
