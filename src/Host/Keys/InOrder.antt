-- ===== src/Host/Keys/InOrder.antt =====
-- The queue that Effect_Piano/Effect_Piano.cpp writes from, behind `start`, `effect1` and each of the keys.
use effect_piano_light_contr.Base.{
  ℕ, zero, suc, ◌+◌, Bool, true, false, List, [], ◌∷◌, if◌then◌else◌,
}
use effect_piano_light_contr.Base.Int.{ℤ, pos}
use effect_piano_light_contr.Host.Link.Fifo.{IsValid, send-IsValid, pta_all-IsValid}
use effect_piano_light_contr.Host.State.{Host, send, pta_all, write_set}
use effect_piano_light_contr.Host.Lights.{
  mix, refresh_bg, refresh_or_off, start_color, start_background, start_switches, start, light_up,
  move_on, effect1, rgb,
}
use effect_piano_light_contr.Host.Keys.{
  Keyboard, heat, ctrl, rainbow_start, color_keys, background_key, color_key, effect_key, clear_key,
  circle_key, ends_key, rainbow_key, contain_key, extend_key, background_switch, when, save,
}

-- The queue of the program is in order.
pub record InOrder (h : Host) : Type 0 where
  pub valid : IsValid h.link

pub send-InOrder : (xs : List ℤ) {h : Host} → InOrder h → InOrder (send xs h)
send-InOrder xs v = record { valid = send-IsValid xs v.valid }

pub pta_all-InOrder : (xs : List ℤ) {h : Host} → InOrder h → InOrder (pta_all xs h)
pta_all-InOrder xs v = record { valid = pta_all-IsValid xs v.valid }

pub mix-InOrder : {h : Host} → InOrder h → InOrder (mix h).1
unfolding mix
mix-InOrder v = record { valid = v.valid }

pub refresh_bg-InOrder : {h : Host} → InOrder h → InOrder (refresh_bg h)
unfolding refresh_bg
refresh_bg-InOrder v = send-InOrder _ (send-InOrder _ v)

pub save-InOrder : {h : Host} → InOrder h → InOrder (save h)
unfolding write_set
save-InOrder v = record { valid = v.valid }

pub heat-InOrder : {h : Host} → InOrder h → InOrder (heat h)
heat-InOrder v = record { valid = v.valid }

pub if-InOrder : (b : Bool) (g h : Host) → InOrder g → InOrder h → InOrder (if b then g else h)
if-InOrder true g h v w = v
if-InOrder false g h v w = w

pub refresh_or_off-InOrder : (b c : Bool) {h : Host} → InOrder h → InOrder (refresh_or_off b c h)
unfolding refresh_or_off
refresh_or_off-InOrder true true v = refresh_bg-InOrder v
refresh_or_off-InOrder true false v = send-InOrder _ v
refresh_or_off-InOrder false c v = send-InOrder _ v

pub start-InOrder : {h : Host} → InOrder h → InOrder (start h)
unfolding start start_color start_background start_switches
start-InOrder v = send-InOrder _ (
    send-InOrder _ (
      send-InOrder _ (
        send-InOrder _ (
          send-InOrder _ (
            refresh_or_off-InOrder _ _
              (mix-InOrder (pta_all-InOrder _ (send-InOrder _ (send-InOrder _ v)))))))))

pub light_up-InOrder : (n j : ℕ) {h : Host} → InOrder h → InOrder (light_up n j h)
unfolding light_up
light_up-InOrder zero j v = v
light_up-InOrder (suc n) j v = light_up-InOrder n (j + 1) (send-InOrder _ v)

pub move_on-InOrder : (m n j : ℕ) {h : Host} → InOrder h → InOrder (move_on m n j h)
unfolding move_on
move_on-InOrder m zero j v = v
move_on-InOrder m (suc n) j v = move_on-InOrder m n (j + 1) (send-InOrder _ v)

pub effect1-InOrder : (n : ℕ) {h : Host} → InOrder h → InOrder (effect1 n h)
unfolding effect1
effect1-InOrder n v = send-InOrder _ (
    send-InOrder _
      (light_up-InOrder n _ (move_on-InOrder n _ _ (light_up-InOrder n 1 (send-InOrder _ v)))))

pub background_key-InOrder : (c : ℤ) {h : Host} → InOrder h → InOrder (background_key c h)
unfolding background_key
background_key-InOrder c {h} v =
    let named : Host =
      save (record h { settings = record (h.settings) { color_background_default = c } }) in
    let mixed : InOrder (mix named).1 = mix-InOrder {h = named} (record { valid = v.valid }) in
    heat-InOrder (
      if-InOrder (mix named).0 _ _
        (save-InOrder
          {h = if (mix named).1.settings.on_background
            then refresh_bg (mix named).1
            else (mix named).1}
          (if-InOrder (mix named).1.settings.on_background _ _ (refresh_bg-InOrder mixed) mixed))
        mixed)

pub color_key-InOrder : (c : ℤ) {h : Host} → InOrder h → InOrder (color_key c h)
unfolding color_key
color_key-InOrder c {h} v =
    let named : Host → Host =
      λ g. record g { settings = record (g.settings) { color_default = c } } in
    let xs : List ℤ = pos 89 ∷ rgb (h.palette.color c) in
    heat-InOrder (
      if-InOrder h.settings.on_background _ _
        (save-InOrder {h = refresh_bg (mix (named h)).1}
          (refresh_bg-InOrder (mix-InOrder {h = named h} (record { valid = v.valid }))))
        (save-InOrder {h = named (send xs h)} (record { valid = send-IsValid xs v.valid })))

pub color_keys-InOrder :
    (k : Keyboard) (n ch : ℕ) {h : Host} → InOrder h → InOrder (color_keys k n ch h)
unfolding color_keys
color_keys-InOrder k zero ch v = v
color_keys-InOrder k (suc n) ch v = color_keys-InOrder k n (ch + 1) (
    if-InOrder _ _ _ (if-InOrder (ctrl k) _ _ (background_key-InOrder _ v) (color_key-InOrder _ v))
      v)

pub when-InOrder :
    (b : Bool) (f : Host → Host) {h : Host} → InOrder (f h) → InOrder h → InOrder (when b f h)
when-InOrder b f {h} w v = if-InOrder b (f h) h w v

pub effect_key-InOrder : {h : Host} → InOrder h → InOrder (effect_key h)
unfolding effect_key
effect_key-InOrder v = record { valid = (effect1-InOrder 10 v).valid }

pub clear_key-InOrder : {h : Host} → InOrder h → InOrder (clear_key h)
unfolding clear_key
clear_key-InOrder v = heat-InOrder (send-InOrder _ v)

pub circle_key-InOrder : {h : Host} → InOrder h → InOrder (circle_key h)
unfolding circle_key write_set
circle_key-InOrder v = record { valid = send-IsValid _ v.valid }

pub ends_key-InOrder : {h : Host} → InOrder h → InOrder (ends_key h)
unfolding ends_key write_set
ends_key-InOrder v = record { valid = send-IsValid _ v.valid }

pub rainbow_start-InOrder : {h : Host} → InOrder h → InOrder (rainbow_start h)
rainbow_start-InOrder v = send-InOrder _ (send-InOrder _ (send-InOrder _ v))

-- What `M` sends when the rainbow stops.
pub stopped-InOrder :
    (b : ℤ) {h : Host} → InOrder h → InOrder (pta_all (pos 93 ∷ b ∷ []) (send (pos 95 ∷ []) h))
stopped-InOrder b v = pta_all-InOrder _ (send-InOrder _ v)

pub rainbow_key-InOrder : (held : Bool) {h : Host} → InOrder h → InOrder (rainbow_key held h)
unfolding rainbow_key
rainbow_key-InOrder true {h} v =
    if-InOrder h.panel.on_rainbow _ _ (send-InOrder _ v)
      (record { valid = (rainbow_start-InOrder v).valid })
rainbow_key-InOrder false {h} v =
    if-InOrder h.panel.on_rainbow _ _
      (if-InOrder h.settings.on_circle _ _
        (record { valid = send-IsValid _ (stopped-InOrder _ v).valid })
        (record { valid = (stopped-InOrder _ v).valid }))
      v

pub contain_key-InOrder : {h : Host} → InOrder h → InOrder (contain_key h)
unfolding contain_key
contain_key-InOrder {h} v = heat-InOrder (
    if-InOrder h.panel.contain_rainbow _ _
      (if-InOrder h.settings.on_circle _ _
        (record { valid = send-IsValid _ (send-IsValid _ (stopped-InOrder _ v).valid) })
        (record { valid = send-IsValid _ (stopped-InOrder _ v).valid }))
      (record { valid = (rainbow_start-InOrder v).valid }))

pub extend_key-InOrder : {h : Host} → InOrder h → InOrder (extend_key h)
unfolding extend_key write_set
extend_key-InOrder v = record { valid = send-IsValid _ v.valid }

pub background_switch-InOrder : {h : Host} → InOrder h → InOrder (background_switch h)
unfolding background_switch
background_switch-InOrder {h} v =
    if-InOrder h.settings.on_background _ _
      (heat-InOrder (save-InOrder (record { valid = send-IsValid _ v.valid })))
      (heat-InOrder (
        if-InOrder (mix h).0 _ _
          (save-InOrder (refresh_bg-InOrder (record { valid = (mix-InOrder v).valid })))
          (mix-InOrder v)))
