-- ===== src/Host/Midi/Filter.antt =====
-- Which messages go to the sketch.
use effect_piano_light_contr.Base.{◌≡◌, ◌≢◌, ◌⊎◌, ℕ, ◌<◌, List, length, get_or}
use effect_piano_light_contr.Base.Int.{ℤ, pos}
use effect_piano_light_contr.Host.Settings.{Settings}
use effect_piano_light_contr.Host.Midi.{using, ignored}

-- Some element of the list is `c`.
abbrev pub Has : ℤ → List ℤ → Type 0
Has c xs = (i : ℕ) × (i < length xs) × (get_or xs i c ≡ c)

-- The messages that `Settings` let through.
abbrev pub IsHeard : Settings → ℕ → Type 0
IsHeard s status =
    ((s.num_using_channel ≡ pos 0) × ¬ Has (pos status) (ignored s))
    ⊎ ((s.num_using_channel ≢ pos 0) × Has (pos status) (using s))
