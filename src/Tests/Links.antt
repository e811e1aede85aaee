-- ===== src/Tests/Links.antt =====
-- The queue at concrete inputs.
use effect_piano_light_contr.Base.{refl, ◌≡◌, [], ◌∷◌, arith}
use effect_piano_light_contr.Base.Int.{pos}
use effect_piano_light_contr.Host.Link.{Link, push, pta}
use effect_piano_light_contr.Host.Link.Fifo.{IsValid, Holds, emits, pta-Holds, push_lem}
use effect_piano_light_contr.Tests.Data.{empty_link}

pub empty_link-IsValid : IsValid empty_link
empty_link-IsValid = record { op_in = omega arith; cl_in = omega arith; size = refl; ended = refl }

pub empty_link-Holds : Holds empty_link [] []
empty_link-Holds = record { valid = empty_link-IsValid; waits = refl; wrote = refl }

-- Three ints wait, round the end of the ring.
abbrev three : Link
three = pta (pos 5) (pta (pos 256) (pta (pos 89) empty_link))

three-Holds : Holds three (pos 89 ∷ pos 256 ∷ pos 5 ∷ []) []
unfolding pta
three-Holds = record {
  valid = record { op_in = omega arith; cl_in = omega arith; size = refl; ended = refl };
  waits = refl;
  wrote = refl;
}

push_lem_example :
    Holds (push three) [] (emits (pos 89 ∷ pos 256 ∷ pos 5 ∷ []))
    × ((push three).op ≡ (push three).cl)
push_lem_example = push_lem three-Holds

-- The 256 between them is not written.
three_bytes : (push three).wire ≡ 89 ∷ 5 ∷ []
three_bytes = push_lem_example.0.wrote

pta-Holds_example : Holds (pta (pos 7) three) (pos 89 ∷ pos 256 ∷ pos 5 ∷ pos 7 ∷ []) []
pta-Holds_example = pta-Holds (pos 7) (omega arith) three-Holds
