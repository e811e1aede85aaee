-- ===== src/System.antt =====
-- The program of Effect_Piano/Effect_Piano.cpp and the sketch of Effect_Piano_v1.3.0.ino together:
-- what the sketch makes of the bytes that the program writes.
pub mod Mixing
pub mod Sections
pub mod Start
pub mod Zero
pub mod Agrees
pub mod Moves
pub mod Colors
pub mod Keys
pub mod Twice
pub mod Shows
pub mod Rainbow
pub mod Play
pub mod Round
pub mod Requests
pub mod Asks
pub mod Session
pub mod Begin
pub mod Recital
pub mod PowerOn
pub mod Select
use effect_piano_light_contr.Base.{ℕ, ◌≡◌, ◌≢◌, Bool, true, List, [], ◌∷◌}
use effect_piano_light_contr.Base.Int.{ℤ, low_byte}
use effect_piano_light_contr.Host.Link.Fifo.{emits}
use effect_piano_light_contr.Sketch.State.{FastLed, Sketch}
use effect_piano_light_contr.Sketch.Config.{Config, config}
use effect_piano_light_contr.Sketch.Steps.{Steps}

-- The byte of the int is not 0, so it is written.
abbrev pub IsSent : ℤ → Type 0
IsSent a = low_byte a ≢ 0

-- The sketch in state `s` takes the bytes of the ints `xs`, and its configuration is then `c`.
pub record Configures (lib : FastLed) (s : Sketch) (xs : List ℤ) (c : Config) : Type 0 where
  pub after : Sketch
  pub steps : Steps lib s (emits xs) after
  pub set : config after ≡ c
