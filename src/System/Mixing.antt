-- ===== src/System/Mixing.antt =====
-- The colours that the settings of Effect_Piano/Effect_Piano.cpp name, and those that `get_bg_color`
-- makes of them.
use effect_piano_light_contr.Base.{
  inl, inr, Bool-cases, ◌≡◌, refl, Bool, not, [], ◌∷◌, ◌&&◌, if◌then◌else◌,
}
use effect_piano_light_contr.Base.Int.{ℤ, pos, ◌-ℤ◌, ◌*ℤ◌, div_trunc, low_byte, is_zero}
use effect_piano_light_contr.Host.Settings.{Settings}
use effect_piano_light_contr.Host.Palette.{Color, Palette, get_bg_color}
use effect_piano_light_contr.Host.Lights.Wire.{start_background_ints, background_ints}
use effect_piano_light_contr.Sketch.Config.{Config}

-- A colour at a brightness out of 256
abbrev pub dimmed : ℤ → Color → Color
dimmed bright c = record {
  r = div_trunc (c.r *ℤ bright) 256;
  g = div_trunc (c.g *ℤ bright) 256;
  b = div_trunc (c.b *ℤ bright) 256;
}

-- What is left of the colour of the keys in front of that of the background.
abbrev pub difference : Color → Color → Color
difference c d = record { r = c.r -ℤ d.r; g = c.g -ℤ d.g; b = c.b -ℤ d.b }

-- The colours behind `get_bg_color`.
abbrev pub mixed_palette : ℤ → ℤ → ℤ → Palette → Palette
mixed_palette bright fg bg p = record p {
  color_background = p.color bg;
  color_bg_real = dimmed bright (p.color bg);
  color_plus = difference (p.color fg) (dimmed bright (p.color bg));
}

-- The background is on, and its brightness is not 0.
abbrev pub has_background : Settings → Bool
has_background s = not (is_zero s.bright_background) && s.on_background

-- The colours of the keys and of the background that the settings name
abbrev pub front_color : Settings → Palette → Color
front_color s p = p.color s.color_default

abbrev pub ground_color : Settings → Palette → Color
ground_color s p = dimmed s.bright_background (p.color s.color_background_default)

abbrev pub mixed : Settings → Palette → Palette
mixed s p = mixed_palette s.bright_background s.color_default s.color_background_default p

pub background_sent :
    (s : Settings) (p : Palette)
    → start_background_ints s p
      ≡ (if has_background s then background_ints (mixed s p) else pos 103 ∷ [])
unfolding get_bg_color
background_sent s p = elim (Bool-cases (is_zero s.bright_background)) [
  | inl e ↦ rw e refl
  | inr e ↦ rw e refl
]

-- The keys are lit in a colour.
abbrev pub Shines : Color → Config → Type 0
Shines c k = (k.red ≡ low_byte c.r) × (k.green ≡ low_byte c.g) × (k.blue ≡ low_byte c.b)

-- The background is lit in a colour, or was when it was last on.
abbrev pub IsBehind : Color → Config → Type 0
IsBehind c k =
    (k.back_red ≡ low_byte c.r) × (k.back_green ≡ low_byte c.g) × (k.back_blue ≡ low_byte c.b)
