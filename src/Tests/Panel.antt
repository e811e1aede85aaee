-- ===== src/Tests/Panel.antt =====
-- Keys, messages, the console and the port at concrete inputs.
use effect_piano_light_contr.Base.{
  ℕ, zero, suc, ◌<◌, arith, get_or, refl, ◌≡◌, false, [], ◌∷◌, none, some, Option,
}
use effect_piano_light_contr.Base.Int.{ℤ, pos, ◌≤ℤ◌, ◌+ℤ◌}
use effect_piano_light_contr.Host.Text.{Lines, num, text}
use effect_piano_light_contr.Host.State.{Host}
use effect_piano_light_contr.Host.Midi.{Message, has_channel, round_end}
use effect_piano_light_contr.Host.Keys.{
  Round, next, round, set_keys, circle_key, rainbow_key, color_keys,
}
use effect_piano_light_contr.Host.Keys.InOrder.{InOrder}
use effect_piano_light_contr.Host.Keys.Runs.{round_runs}
use effect_piano_light_contr.Host.Keys.Queue.{host_of, round-InOrder}
use effect_piano_light_contr.Host.Console.{top, about, goes, waits, run_console, set_extend}
use effect_piano_light_contr.Host.Console.Modes.{
  about_traps, set_extend_range, set_background_shows,
}
use effect_piano_light_contr.Tests.Data.{some_host, pressed}
use effect_piano_light_contr.Tests.Links.{empty_link-IsValid}

-- No number is read in the console.
abbrev no_tenths : Lines → Option ℤ × Lines
no_tenths ls = (none, ls)

abbrev typed : Lines
typed = (text "set" ∷ text "brightness" ∷ num (pos 9) ∷ []) ∷ (text "quit" ∷ []) ∷ []

about_traps_example :
    run_console no_tenths [] 5 top ((text "about" ∷ []) ∷ typed) some_host ≡ waits about some_host
about_traps_example = about_traps no_tenths [] 4 typed some_host

abbrev eleven : Lines
eleven = (num (pos 11) ∷ []) ∷ []

set_extend_range_example :
    (rest : Lines) × (h' : Host) × (set_extend eleven some_host ≡ goes top rest h')
    × (pos 0 ≤ℤ h'.settings.num_extend)
    × (h'.settings.num_extend ≤ℤ pos 10)
set_extend_range_example = set_extend_range eleven some_host

set_background_shows_example :
    run_console no_tenths [] 3 top
      ((text "set" ∷ text "background" ∷ text "log" ∷ num (pos 1) ∷ []) ∷ (text "quit" ∷ []) ∷ [])
      some_host
    ≡ run_console no_tenths [] 3 top
        ((text "show" ∷ text "log" ∷ num (pos 1) ∷ []) ∷ (text "quit" ∷ []) ∷ [])
        some_host
set_background_shows_example =
    set_background_shows no_tenths [] 1 (text "log") (num (pos 1) ∷ []) ((text "quit" ∷ []) ∷ [])
      some_host refl refl

abbrev key_60 : Message
key_60 = record { status = 144; data1 = 60 }

abbrev circled : Host
circled = round_end (some key_60) (circle_key some_host)

round-InOrder_example : InOrder (host_of (next circled))
unfolding round circle_key round_end has_channel rainbow_key ◌+ℤ◌ color_keys
round-InOrder_example =
    round-InOrder (pressed b'C') (some key_60) {h = some_host} {r = next circled}
      (record { valid = empty_link-IsValid }) refl

-- `C` is the key of no preset.
c_idle : (j : ℕ) → j < 6 → (pressed b'C').down (get_or set_keys j 0) ≡ false
c_idle zero h = refl
c_idle (suc zero) h = refl
c_idle (suc (suc zero)) h = refl
c_idle (suc (suc (suc zero))) h = refl
c_idle (suc (suc (suc (suc zero)))) h = refl
c_idle (suc (suc (suc (suc (suc zero))))) h = refl
c_idle (suc (suc (suc (suc (suc (suc j)))))) h = absurd (omega arith)

round_runs_example :
    (r : Round) × (round (pressed b'C') (some key_60) some_host ≡ some r) × InOrder (host_of r)
round_runs_example =
    round_runs (pressed b'C') (some key_60) {h = some_host} (record { valid = empty_link-IsValid })
      (omega arith) refl c_idle
