-- ===== src/Host/Lights.antt =====
-- What Effect_Piano/Effect_Piano.cpp sends to set the lights up: `refresh_bg`, `start`, `effect1`.
pub mod Effect
pub mod Wire
use effect_piano_light_contr.Base.{
  ℕ, zero, suc, ◌+◌, ◌-◌, ◌≡◌, Bool, true, false, List, [], ◌∷◌, if◌then◌else◌,
}
use effect_piano_light_contr.Base.Int.{ℤ, pos}
use effect_piano_light_contr.Host.Palette.{Color, get_bg_color}
use effect_piano_light_contr.Host.State.{Host, send, pta_all}

-- `pta (c.r); pta (c.g); pta (c.b);` behind what `xs` sends
abbrev pub rgb : Color → List ℤ
rgb c = c.r ∷ c.g ∷ c.b ∷ []

-- `get_bg_color` on the globals
unfoldable pub mix : Host → Bool × Host
unfolding get_bg_color
mix h =
    let (done, s, p) =
      get_bg_color h.settings.color_default h.settings.color_background_default
        (h.settings, h.palette) in
    (done, record h { settings = s; palette = p })

unfoldable pub refresh_bg : Host → Host
refresh_bg h =
    send (pos 89 ∷ rgb h.palette.color_plus)
      (send (pos 103 ∷ pos 102 ∷ rgb h.palette.color_bg_real) h)

-- `start` up to the colour, which is not pushed yet.
unfoldable pub start_color : Host → Host
start_color h =
    pta_all (pos 89 ∷ rgb (h.palette.color h.settings.color_default))
      (send (pos 127 ∷ []) (send (pos 0 ∷ pos 127 ∷ []) h))

-- The branches of `start` on the result of `get_bg_color` and on `on_background`.
unfoldable pub refresh_or_off : Bool → Bool → Host → Host
refresh_or_off done on h =
    if done then (if on then refresh_bg h else send (pos 103 ∷ []) h) else send (pos 103 ∷ []) h

unfoldable pub start_background : Host → Host
start_background h = let (done, h') = mix h in refresh_or_off done h'.settings.on_background h'

unfoldable pub start_switches : Host → Host
start_switches h = send (pos 93 ∷ h.settings.brightness ∷ []) (
    send (if h.settings.on_extend then pos 96 ∷ h.settings.num_extend ∷ [] else pos 101 ∷ []) (
      send (if h.settings.on_remain then pos 98 ∷ h.settings.num_remain ∷ [] else pos 99 ∷ []) (
        send (if h.settings.on_ends then pos 92 ∷ [] else pos 97 ∷ [])
          (send (if h.settings.on_circle then pos 91 ∷ [] else pos 90 ∷ []) h))))

unfoldable pub start : Host → Host
start h = start_switches (start_background (start_color h))

-- The loops of `effect1`, by the rounds left and `j`.
unfoldable pub light_up : ℕ → ℕ → Host → Host
light_up zero j h = h
light_up (suc rounds) j h = light_up rounds (j + 1) (send (pos j ∷ []) h)

unfoldable pub move_on : ℕ → ℕ → ℕ → Host → Host
move_on n zero j h = h
move_on n (suc rounds) j h = move_on n rounds (j + 1) (send (pos j ∷ pos (j - n) ∷ []) h)

-- `effect1 (n)`, for n up to 87
unfoldable pub effect1 : ℕ → Host → Host
effect1 n h = send (pos 88 ∷ []) (
    send (pos 91 ∷ [])
      (light_up n (88 - n) (move_on n (87 - n) (n + 1) (light_up n 1 (send (pos 90 ∷ []) h)))))
