-- ===== src/Host/Serial.antt =====
-- `serialopen` of Effect_Piano/Effect_Piano.cpp. Whether `CreateFile` opens the port, and which of
-- Enter and ESC is down at each look, is given.
use effect_piano_light_contr.Base.{
  Bool, true, false, not, ◌||◌, List, [], ◌∷◌, Option, none, some, if◌then◌else◌,
}
use effect_piano_light_contr.Base.Int.{ℤ, pos, ◌+ℤ◌, ◌-ℤ◌, ltb_ℤ}

-- A call of `CreateFile`, with the looks at Enter and at ESC while it is not repeated.
pub data Attempt : Type 0 where
  opened : Attempt
  refused : List (Bool × Bool) → Attempt

-- What the call of `serialopen` returns. `no_value`: it ends without a `return`, and what its caller
-- then reads is undefined.
pub data Returned : Type 0 where
  returns : Bool → Returned
  no_value : Returned
  pending : Returned

-- `while (!KEY_DOWN (13) || kbcd > 10) { if (KEY_DOWN (27)) return FALSE; kbcd -= 1; … }`
-- `none`: the looks are used up. `false`: ESC.
unfoldable pub wait_enter : ℤ → List (Bool × Bool) → Option (Bool × ℤ)
wait_enter kbcd [] = none
wait_enter kbcd ((enter, esc) ∷ looks) =
    let rest = wait_enter (kbcd -ℤ pos 1) looks in
    if not enter || ltb_ℤ (pos 10) kbcd
    then (if esc then some (false, kbcd) else rest)
    else some (true, kbcd)

-- What the call returns, and `kbcd` afterwards. The call inside it is for nothing but its effect.
unfoldable pub serialopen : List Attempt → ℤ → Returned × ℤ
unfolding wait_enter
serialopen [] kbcd = (pending, kbcd)
serialopen (opened ∷ attempts) kbcd = (returns true, kbcd)
serialopen (refused looks ∷ attempts) kbcd = elim (wait_enter kbcd looks) [
  | none ↦ (pending, kbcd)
  | some (enter, left) ↦
      let (result, cooled) = serialopen attempts (left +ℤ pos 100) in
      if enter
      then (elim result [ returns b ↦ no_value | no_value ↦ no_value | pending ↦ pending ], cooled)
      else (returns false, left)
]
