-- ===== src/Sketch/Serial.antt =====
-- `Serial.read ()` as the loops of Effect_Piano_v1.3.0.ino call it.
use effect_piano_light_contr.Base.{ℕ, List, [], ◌∷◌, Option, none, some, map}

-- What the coming calls of `Serial.read ()` return: a byte, or `none` for -1.
abbrev pub Polls : Type 0
Polls = List (Option ℕ)

-- `blocked`: the calls that are given end inside a waiting loop. `fault`: an access out of range of
-- `leds`, or a division by 0.
pub data Run (A : Type 0) : Type 0 where
  done : A → Polls → Run A
  blocked : Run A
  fault : Run A

abbrev pub Serial : Type 0 → Type 0
Serial A = Polls → Run A

infixl 5 ◌>>=◌
abbrev pub ◌>>=◌ : {A B : Type 0} → Serial A → (A → Serial B) → Serial B
◌>>=◌ m f ps = elim (m ps) [ done a rest ↦ f a rest | blocked ↦ blocked | fault ↦ fault ]

abbrev pub pure : {A : Type 0} → A → Serial A
pure a ps = done a ps

-- `x = -1; while (x == -1) x = Serial.read ();`
unfoldable pub wait_byte : Serial ℕ
wait_byte [] = blocked
wait_byte (none ∷ ps) = wait_byte ps
wait_byte (some x ∷ ps) = done x ps

-- Bytes that are there when they are asked for.
abbrev pub bytes : List ℕ → Polls
bytes = map some
