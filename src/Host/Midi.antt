-- ===== src/Host/Midi.antt =====
-- What the main loop of Effect_Piano/Effect_Piano.cpp does with a MIDI message, and the end of a
-- round of that loop. PortMidi and its queue are the library's: what `Pm_Read` delivers is given.
pub mod Filter
pub mod Timer
use effect_piano_light_contr.Base.{
  ℕ, zero, suc, Bool, true, false, not, ◌||◌, List, [], ◌∷◌, Option, none, some, take, ◌==◌,
  if◌then◌else◌,
}
use effect_piano_light_contr.Base.Int.{ℤ, pos, ◌+ℤ◌, ◌-ℤ◌, pos_part, is_zero, leb_ℤ}
use effect_piano_light_contr.Host.Settings.{Settings}
use effect_piano_light_contr.Host.State.{Host, Panel, send, same_int}

-- `Pm_MessageStatus` and `Pm_MessageData1` of what was read.
pub record Message : Type 0 where
  pub status : ℕ
  pub data1 : ℕ

-- `for (i = 0; i < n; ++i) if (status == xs[i]) …`
unfoldable pub has_channel : ℤ → List ℤ → Bool
has_channel c [] = false
has_channel c (x ∷ xs) = same_int c x || has_channel c xs

-- The channels that the loop compares; past the end of the array nothing is compared.
abbrev pub using : Settings → List ℤ
using s = take (pos_part s.num_using_channel) s.using_channel

abbrev pub ignored : Settings → List ℤ
ignored s = take (pos_part s.num_ignore_channel) s.ignore_channel

unfoldable pub is_heard : Settings → ℕ → Bool
is_heard s status =
    if is_zero s.num_using_channel
    then not (has_channel (pos status) (ignored s))
    else has_channel (pos status) (using s)

-- The key's number goes to the sketch; key 21 of the MIDI standard is the first.
unfoldable pub on_message : Message → Host → Host
unfolding is_heard
on_message m h = if is_heard h.settings m.status then send ((pos m.data1 -ℤ pos 20) ∷ []) h else h

-- `Pm_Poll` and `Pm_Read`: nothing, or a message.
unfoldable pub on_poll : Option Message → Host → Host
unfolding on_message
on_poll none h = h
on_poll (some m) h = on_message m h

-- The timer of the fading.
unfoldable pub on_timer : Host → Host
on_timer h =
    if h.settings.on_remain
    then (if leb_ℤ h.panel.rm_times (h.panel.rm_timer +ℤ pos 1)
        then send (pos 100 ∷ []) (record h { panel = record (h.panel) { rm_timer = pos 0 } })
        else record h { panel = record (h.panel) { rm_timer = h.panel.rm_timer +ℤ pos 1 } })
    else h

-- `if (kbcd > 0) kbcd -= 1;`, and `kbecd` alike
abbrev pub count_down : ℤ → ℤ
count_down n = if leb_ℤ n (pos 0) then n else n -ℤ pos 1

unfoldable pub cool_down : Host → Host
cool_down h = record h {
  panel = record (h.panel) { kbcd = count_down h.panel.kbcd; kbecd = count_down h.panel.kbecd };
}

-- A round of the loop behind its keys.
unfoldable pub round_end : Option Message → Host → Host
unfolding cool_down on_poll on_timer
round_end m h =
    let cooled = cool_down h in
    if cooled.panel.contain_rainbow then send (pos 94 ∷ []) cooled else on_timer (on_poll m cooled)
