-- ===== src/Host/Keys/Queue.antt =====
-- The queue behind a round of the main loop of Effect_Piano/Effect_Piano.cpp: presets, keys and
-- MIDI messages.
use mathlib.Core.Option.{some-injective}
use effect_piano_light_contr.Base.{
  ◌≡◌, ℕ, zero, suc, ◌+◌, Bool, true, false, not, ◌&&◌, [], ◌∷◌, Option, none, some, if◌then◌else◌,
  get_or, ltb,
}
use effect_piano_light_contr.Base.Int.{ℤ, pos, pos_part, div_trunc, ◌*ℤ◌, ◌+ℤ◌, leb_ℤ}
use effect_piano_light_contr.Host.Link.Fifo.{send-IsValid}
use effect_piano_light_contr.Host.Text.{Lines}
use effect_piano_light_contr.Host.Settings.{Settings}
use effect_piano_light_contr.Host.Palette.{Palette}
use effect_piano_light_contr.Host.State.{Host, write_set}
use effect_piano_light_contr.Host.Presets.{load_set, load_color, with_settings, with_palette}
use effect_piano_light_contr.Host.Midi.{
  Message, round_end, on_poll, on_message, on_timer, cool_down, is_heard,
}
use effect_piano_light_contr.Host.Keys.{
  Keyboard, Round, next, left, round, set_keys, is_cool, cool_key, switch_keys, preset_keys,
  choose_preset, color_keys, effect_key, clear_key, circle_key, ends_key, contain_key, extend_key,
  remain_key, background_switch, quotient, ◌>>=◌,
}
use effect_piano_light_contr.Host.Keys.InOrder.{
  InOrder, send-InOrder, if-InOrder, start-InOrder, color_keys-InOrder, when-InOrder,
  effect_key-InOrder, clear_key-InOrder, circle_key-InOrder, ends_key-InOrder, rainbow_key-InOrder,
  contain_key-InOrder, extend_key-InOrder, background_switch-InOrder,
}

-- What goes on goes on in order; a computation with no result says nothing.
pub data Ends : Option Host → Type 0 where
  nowhere : Ends none
  somewhere : {h : Host} → InOrder h → Ends (some h)

pub Ends-bind :
    {m : Option Host} (f : Host → Option Host)
    → Ends m
    → ((h : Host) → InOrder h → Ends (f h))
    → Ends (m >>= f)
Ends-bind f nowhere k = nowhere
Ends-bind f (somewhere {h} v) k = k h v

pub any-bind :
    {A : Type 0} (m : Option A) (f : A → Option Host) → ((a : A) → Ends (f a)) → Ends (m >>= f)
any-bind none f k = nowhere
any-bind (some a) f k = k a

if-Ends : (b : Bool) (m n : Option Host) → Ends m → Ends n → Ends (if b then m else n)
if-Ends true m n v w = v
if-Ends false m n v w = w

remain_key-Ends : (h : Host) → InOrder h → Ends (remain_key h)
unfolding remain_key write_set
remain_key-Ends h v =
    if-Ends h.settings.on_remain _ _ (somewhere (record { valid = send-IsValid _ v.valid })) (
      any-bind (quotient (div_trunc (h.settings.num_remain *ℤ pos 1000) 200) h.settings.latency) _
        λ times. somewhere (record { valid = send-IsValid _ v.valid }))

with_settings-Ends :
    (h : Host) (r : Option (Settings × Lines)) → InOrder h → Ends (with_settings h r)
with_settings-Ends h none v = nowhere
with_settings-Ends h (some (s, ls)) v = somewhere (record { valid = v.valid })

pub load_set-Ends : (i : ℤ) (h : Host) → InOrder h → Ends (load_set i h)
unfolding load_set
load_set-Ends i h v = with_settings-Ends h _ v

with_palette-Ends :
    (h : Host) (r : Option ((Bool × Palette) × Lines)) → InOrder h → Ends (with_palette h r)
with_palette-Ends h none v = nowhere
with_palette-Ends h (some ((found, p), ls)) v = somewhere (record { valid = v.valid })

pub load_color-Ends : (i : ℤ) (h : Host) → InOrder h → Ends (load_color i h)
unfolding load_color
load_color-Ends i h v = with_palette-Ends h _ v

choose_preset-Ends : (i : ℕ) (h : Host) → InOrder h → Ends (choose_preset i h)
unfolding choose_preset
choose_preset-Ends i h v =
    Ends-bind _ (load_set-Ends (pos i) _ (record { valid = v.valid })) λ loaded w.
      Ends-bind _ (load_color-Ends (pos i) loaded w)
        λ colored w'. somewhere (start-InOrder (send-InOrder (pos 125 ∷ []) w'))

preset_keys-Ends : (k : Keyboard) (n i : ℕ) (h : Host) → InOrder h → Ends (preset_keys k n i h)
unfolding preset_keys
preset_keys-Ends k zero i h v = somewhere v
preset_keys-Ends k (suc n) i h v =
    Ends-bind _
      (if-Ends (not (ltb i 6)) _ _ nowhere
        (if-Ends (k.down (get_or set_keys i 0)) _ _ (choose_preset-Ends i h v) (somewhere v)))
      (preset_keys-Ends k n (i + 1))

cool_key-InOrder :
    (k : Keyboard) (key : ℕ) (f : Host → Host) {h : Host}
    → InOrder (f h)
    → InOrder h
    → InOrder (cool_key k key f h)
cool_key-InOrder k key f {h} w v = when-InOrder (k.down key && is_cool h.panel.kbcd) f w v

switch_keys-Ends : (k : Keyboard) (h : Host) → InOrder h → Ends (switch_keys k h)
unfolding switch_keys
switch_keys-Ends k h v =
    let colored : InOrder (color_keys k 10 49 h) = color_keys-InOrder k 10 49 v in
    let played =
      when-InOrder (k.down b'U' && is_cool (color_keys k 10 49 h).panel.kbecd) effect_key
        (effect_key-InOrder colored) colored in
    let cleared = cool_key-InOrder k 8 clear_key (clear_key-InOrder played) played in
    let circled = cool_key-InOrder k b'C' circle_key (circle_key-InOrder cleared) cleared in
    let ended = cool_key-InOrder k b'V' ends_key (ends_key-InOrder circled) circled in
    let rainbow = rainbow_key-InOrder (k.down b'M') ended in
    let contained = when-InOrder _ contain_key (contain_key-InOrder rainbow) rainbow in
    let extended = cool_key-InOrder k b'Z' extend_key (extend_key-InOrder contained) contained in
    if-Ends _ _ _ (remain_key-Ends _ extended) (
      somewhere
        (cool_key-InOrder k b'B' background_switch (background_switch-InOrder extended) extended))

on_poll-InOrder : (m : Option Message) {h : Host} → InOrder h → InOrder (on_poll m h)
unfolding on_poll on_message
on_poll-InOrder none v = v
on_poll-InOrder (some m) {h} v = if-InOrder (is_heard h.settings m.status) _ _ (send-InOrder _ v) v

on_timer-InOrder : {h : Host} → InOrder h → InOrder (on_timer h)
unfolding on_timer
on_timer-InOrder {h} v =
    if-InOrder h.settings.on_remain _ _
      (if-InOrder (leb_ℤ h.panel.rm_times (h.panel.rm_timer +ℤ pos 1)) _ _
        (record { valid = send-IsValid _ v.valid }) (record { valid = v.valid }))
      v

round_end-InOrder : (m : Option Message) {h : Host} → InOrder h → InOrder (round_end m h)
unfolding round_end cool_down
round_end-InOrder m {h} v =
    let cooled : InOrder (cool_down h) = record { valid = v.valid } in
    if-InOrder h.panel.contain_rainbow _ _ (send-InOrder _ cooled)
      (on_timer-InOrder (on_poll-InOrder m cooled))

-- The program when the round is over.
abbrev pub host_of : Round → Host
host_of (next h) = h
host_of (left h) = h

round_over :
    (b : Bool) (l : Host) (m : Option Host) (f : Host → Host) {r : Round}
    → InOrder l
    → Ends m
    → ((h : Host) → InOrder h → InOrder (f h))
    → (if b then some (left l) else m >>= λ h. some (next (f h))) ≡ some r
    → InOrder (host_of r)
round_over true l m f v w k e = rw (← some-injective _ _ e) v
round_over false l none f v w k e = cc e
round_over false l (some h) f v (somewhere w) k e = rw (← some-injective _ _ e) (k h w)

-- From a state with the queue in order, whatever keys are down and whatever message was read, a round
-- of the main loop that has a result leaves the queue in order: its indices are in range, and the
-- array has its size.
pub round-InOrder :
    (k : Keyboard) (m : Option Message) {h : Host} {r : Round}
    → InOrder h
    → round k m h ≡ some r
    → InOrder (host_of r)
unfolding round
round-InOrder k m {h} v e =
    round_over (k.capslock && k.down 27) _ _ (round_end m) (send-InOrder (pos 125 ∷ []) v)
      (if-Ends k.capslock _ _
        (Ends-bind _ (preset_keys-Ends k (pos_part h.catalog.num_set) 0 h v) (switch_keys-Ends k))
        (somewhere v))
      (λ g. round_end-InOrder m) e
