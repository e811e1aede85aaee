-- ===== src/Host/Keys.antt =====
-- The key-switchers in the main loop of Effect_Piano/Effect_Piano.cpp. The keys are read once for a
-- round. `none`: the program divides by 0, or leaves the range of an array.
pub mod InOrder
pub mod Queue
pub mod Runs
use effect_piano_light_contr.Base.{
  ℕ, zero, suc, ◌+◌, ◌-◌, ◌*◌, ◌/◌, Bool, true, false, not, ◌&&◌, ◌||◌, List, [], ◌∷◌, Option, none,
  some, ◌==◌, ltb, if◌then◌else◌, get_or, length,
}
use effect_piano_light_contr.Base.Int.{ℤ, pos, negsuc, ◌+ℤ◌, ◌-ℤ◌, ◌*ℤ◌, pos_part, leb_ℤ, div_trunc}
use effect_piano_light_contr.Host.Palette.{get_bg_color}
use effect_piano_light_contr.Host.State.{Host, Panel, send, pta_all, write_set}
use effect_piano_light_contr.Host.Lights.{rgb, mix, refresh_bg, start, effect1}
use effect_piano_light_contr.Host.Presets.{load_set, load_color}
use effect_piano_light_contr.Host.Midi.{Message, round_end}

infixl 5 ◌>>=◌
abbrev pub ◌>>=◌ : {A B : Type 0} → Option A → (A → Option B) → Option B
none >>= f = none
some a >>= f = f a

-- `KEY_DOWN`, and whether Caps Lock is on.
pub record Keyboard : Type 0 where
  pub down : ℕ → Bool
  pub capslock : Bool

-- CTRL
abbrev pub ctrl : Keyboard → Bool
ctrl k = k.down 17

-- C's `/`, which rounds towards zero.
unfoldable pub quotient : ℤ → ℤ → Option ℤ
quotient a (pos zero) = none
quotient a (pos (suc n)) = some (div_trunc a (suc n))
quotient a (negsuc n) = some (div_trunc (pos 0 -ℤ a) (suc n))

-- `kbcd <= 10`
abbrev pub is_cool : ℤ → Bool
is_cool n = leb_ℤ n (pos 10)

-- `kbcd += cdplus;`
abbrev pub heat : Host → Host
heat h = record h { panel = record (h.panel) { kbcd = h.panel.kbcd +ℤ h.panel.cdplus } }

-- `write_set (using_set);`
abbrev pub save : Host → Host
save h = write_set h.catalog.using_set h

-- LOSET_FORM
abbrev pub loset_form : ℕ
loset_form = 6

-- `set_form[i].key`; the value of each is its index.
abbrev pub set_keys : List ℕ
set_keys = b'Q' ∷ b'W' ∷ b'E' ∷ b'R' ∷ b'T' ∷ b'Y' ∷ []

unfoldable pub choose_preset : ℕ → Host → Option Host
choose_preset i h = do
  loaded ← load_set (pos i) (record h { catalog = record (h.catalog) { using_set = pos i } })
  colored ← load_color (pos i) loaded
  some (start (send (pos 125 ∷ []) colored))

-- The loop over the presets; `set_form` has LOSET_FORM elements. A preset that is loaded leaves `num_set`.
unfoldable pub preset_keys : Keyboard → ℕ → ℕ → Host → Option Host
unfolding choose_preset
preset_keys k zero i h = some h
preset_keys k (suc n) i h =
    (if not (ltb i loset_form)
      then none
      else if k.down (get_or set_keys i 0)
      then choose_preset i h
      else some h)
    >>= preset_keys k n (i + 1)

-- One of the keys 1 to 9 and the one behind them, with CTRL.
unfoldable pub background_key : ℤ → Host → Host
unfolding mix refresh_bg write_set
background_key c h =
    let named =
      save (record h { settings = record (h.settings) { color_background_default = c } }) in
    let (done, mixed) = mix named in
    heat (
      if done
      then save (if mixed.settings.on_background then refresh_bg mixed else mixed)
      else mixed)

-- The same key without CTRL.
unfoldable pub color_key : ℤ → Host → Host
unfolding mix refresh_bg write_set
color_key c h =
    let named = λ (g : Host). record g { settings = record (g.settings) { color_default = c } } in
    heat (
      if h.settings.on_background
      then save (refresh_bg (mix (named h)).1)
      else save (named (send (pos 89 ∷ rgb (h.palette.color c)) h)))

-- The loop from `ch` = 49 to 58.
unfoldable pub color_keys : Keyboard → ℕ → ℕ → Host → Host
unfolding background_key color_key
color_keys k zero ch h = h
color_keys k (suc n) ch h = color_keys k n (ch + 1) (
    if k.down ch && is_cool h.panel.kbcd
    then (if ctrl k then background_key (pos (ch - 49)) h else color_key (pos (ch - 49)) h)
    else h)

unfoldable pub effect_key : Host → Host
unfolding effect1
effect_key h =
    let played = effect1 10 h in
    record played {
      panel = record (played.panel) { kbecd = played.panel.kbecd +ℤ played.panel.cdplus };
    }

unfoldable pub clear_key : Host → Host
clear_key h = heat (send (pos 88 ∷ []) h)

unfoldable pub circle_key : Host → Host
unfolding write_set
circle_key h =
    let on = not h.settings.on_circle in
    heat (
      send ((if on then pos 91 else pos 90) ∷ [])
        (save (record h { settings = record (h.settings) { on_circle = on } })))

unfoldable pub ends_key : Host → Host
unfolding write_set
ends_key h =
    let on = not h.settings.on_ends in
    heat (
      send ((if on then pos 92 else pos 97) ∷ [])
        (save (record h { settings = record (h.settings) { on_ends = on } })))

abbrev pub set_rainbow : Bool → Host → Host
set_rainbow on h = record h { panel = record (h.panel) { on_rainbow = on } }

abbrev pub set_contained : Bool → Host → Host
set_contained on h = record h { panel = record (h.panel) { contain_rainbow = on } }

abbrev pub rainbow_start : Host → Host
rainbow_start h = send (pos 94 ∷ []) (send (pos 90 ∷ []) (send (pos 93 ∷ pos 20 ∷ []) h))

-- `M` held down, and `M` let go.
unfoldable pub rainbow_key : Bool → Host → Host
rainbow_key true h =
    if h.panel.on_rainbow then send (pos 94 ∷ []) h else set_rainbow true (rainbow_start h)
rainbow_key false h =
    if h.panel.on_rainbow
    then (let off =
          set_rainbow false
            (pta_all (pos 93 ∷ h.settings.brightness ∷ []) (send (pos 95 ∷ []) h)) in
        if h.settings.on_circle then send (pos 91 ∷ []) off else off)
    else h

-- `M` with CTRL
unfoldable pub contain_key : Host → Host
contain_key h = heat (
    if h.panel.contain_rainbow
    then (let off = send (pos 88 ∷ []) (
          set_contained false
            (pta_all (pos 93 ∷ h.settings.brightness ∷ []) (send (pos 95 ∷ []) h))) in
        if h.settings.on_circle then send (pos 91 ∷ []) off else off)
    else set_contained true (rainbow_start h))

unfoldable pub extend_key : Host → Host
unfolding write_set
extend_key h =
    let on = not h.settings.on_extend in
    heat (
      save (
        send (if on then pos 96 ∷ h.settings.num_extend ∷ [] else pos 101 ∷ [])
          (record h { settings = record (h.settings) { on_extend = on } })))

-- `rm_times = num_remain * 1000 / 200 / latency`
unfoldable pub remain_key : Host → Option Host
unfolding write_set quotient
remain_key h =
    if h.settings.on_remain
    then some (
        heat (
          save (
            send (pos 99 ∷ [])
              (record h { settings = record (h.settings) { on_remain = false } }))))
    else (do
      times ← quotient (div_trunc (h.settings.num_remain *ℤ pos 1000) 200) h.settings.latency
      some (
          heat (
            save (
              send (pos 98 ∷ h.settings.num_remain ∷ []) (record h {
                settings = record (h.settings) { on_remain = true };
                panel = record (h.panel) { rm_times = times };
              })))))

unfoldable pub background_switch : Host → Host
unfolding mix refresh_bg write_set
background_switch h =
    if h.settings.on_background
    then heat (
        save (
          send (pos 103 ∷ [])
            (record h { settings = record (h.settings) { on_background = false } })))
    else (let (done, mixed) = mix h in
        heat (
          if done
          then save (
              refresh_bg
                (record mixed { settings = record (mixed.settings) { on_background = true } }))
          else mixed))

-- A key that counts while `kbcd` is cool.
abbrev pub when : Bool → (Host → Host) → Host → Host
when b f h = if b then f h else h

abbrev pub cool_key : Keyboard → ℕ → (Host → Host) → Host → Host
cool_key k key f h = when (k.down key && is_cool h.panel.kbcd) f h

-- The keys behind the presets, in the order of the code. `B` is read only if `X` is not taken.
unfoldable pub switch_keys : Keyboard → Host → Option Host
switch_keys k h =
    let colored = color_keys k 10 49 h in
    let played = when (k.down b'U' && is_cool colored.panel.kbecd) effect_key colored in
    let cleared = cool_key k 8 clear_key played in
    let circled = cool_key k b'C' circle_key cleared in
    let ended = cool_key k b'V' ends_key circled in
    let rainbow = rainbow_key (k.down b'M') ended in
    let contained =
      when (k.down b'M' && (ctrl k && is_cool rainbow.panel.kbcd)) contain_key rainbow in
    let extended = cool_key k b'Z' extend_key contained in
    if k.down b'X' && is_cool extended.panel.kbcd
    then remain_key extended
    else some (cool_key k b'B' background_switch extended)

-- What a round of the main loop does: it goes on, or ends the loop.
pub data Round : Type 0 where
  next : Host → Round
  left : Host → Round

-- A round of the main loop, behind the check for the console.
unfoldable pub round : Keyboard → Option Message → Host → Option Round
unfolding preset_keys switch_keys round_end
round k m h =
    if k.capslock && k.down 27
    then some (left (send (pos 125 ∷ []) h))
    else ((if k.capslock
          then preset_keys k (pos_part h.catalog.num_set) 0 h >>= switch_keys k
          else some h)
        >>= λ h'. some (next (round_end m h')))
