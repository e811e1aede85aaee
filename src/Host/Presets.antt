-- ===== src/Host/Presets.antt =====
-- The presets of Effect_Piano/Effect_Piano.cpp: `show_set`, `select_set`, and loading one.
pub mod Reload
use effect_piano_light_contr.Base.{
  ℕ, zero, suc, ◌+◌, Bool, true, false, List, [], ◌∷◌, Option, none, some, ◌==◌, ltb, if◌then◌else◌,
}
use effect_piano_light_contr.Base.Int.{ℤ, pos, ◌-ℤ◌, pos_part, leb_ℤ}
use effect_piano_light_contr.Host.Text.{
  Word, Lines, Reader, ◌>>=◌, ◌>>◌, pure, scan_word, scan_int, read_int, read_word, skip_line,
}
use effect_piano_light_contr.Host.Settings.{Settings, read_set}
use effect_piano_light_contr.Host.Palette.{Palette, read_color, same_index}
use effect_piano_light_contr.Host.State.{Host, Catalog, efpdata, efpcolor}

-- NUM_SET
abbrev pub most_sets : ℕ
most_sets = 128

-- `scanf ("%s", name_set[i].a)` and the rest of the line; `none` past `name_set[127]`.
unfoldable pub read_name : ℕ → (ℤ → Option Word) → Reader (ℤ → Option Word)
unfolding scan_word
read_name i names = do
  name ← read_word (names (pos i))
  skip_line
  λ ls. if ltb i most_sets then some ((λ j. if same_index j i then name else names j), ls) else none

unfoldable pub read_names : ℕ → ℕ → (ℤ → Option Word) → Reader (ℤ → Option Word)
unfolding read_name
read_names zero i names = pure names
read_names (suc n) i names = do next ← read_name i names; read_names n (i + 1) next

-- `show_set`, from the text of `setting_list.txt`: at most NUM_SET names.
unfoldable pub read_list : Catalog → Reader Catalog
unfolding scan_int
read_list c = do
  listed ← read_int c.num_set
  skip_line
  names ←
      read_names (pos_part (if leb_ℤ (pos most_sets) listed then pos most_sets else listed)) 0
        c.name_set
  pure (record c {
    num_set = if leb_ℤ (pos most_sets) listed then pos most_sets else listed;
    name_set = names;
  })

-- `select_set`, from the text of `setting_list.txt` and what is typed.
unfoldable pub select_set : Lines → Catalog → Reader Catalog
unfolding read_list
select_set list c typed = elim (read_list c list) [
  | none ↦ none
  | some (listed, _) ↦
      (do n ← read_int listed.using_set; pure (record listed { using_set = n -ℤ pos 1 })) typed
]

-- A file that is not there reads as an empty one.
abbrev pub text_of : Option Lines → Lines
text_of none = []
text_of (some ls) = ls

-- The globals with the settings that were read.
abbrev pub with_settings : Host → Option (Settings × Lines) → Option Host
with_settings h none = none
with_settings h (some (s, _)) = some (record h { settings = s })

-- `read_set (useset)` on the globals
unfoldable pub load_set : ℤ → Host → Option Host
load_set useset h =
    with_settings h (read_set h.settings (text_of (h.disk (h.catalog.name_set useset) efpdata)))

-- The globals with the palette that was read.
abbrev pub with_palette : Host → Option ((Bool × Palette) × Lines) → Option Host
with_palette h none = none
with_palette h (some ((_, p), _)) = some (record h { palette = p })

-- `read_color (useset)` on the globals
unfoldable pub load_color : ℤ → Host → Option Host
load_color useset h =
    with_palette h (read_color h.palette (text_of (h.disk (h.catalog.name_set useset) efpcolor)))
