-- ===== src/Host/Devices/Numbers.antt =====
-- The number that `get_number` returns, and the devices that stand in the list.
use effect_piano_light_contr.Base.{
  ℕ, zero, suc, ◌+◌, ◌<◌, ◌≡◌, refl, Bool-cases, inl, inr, List, [], ◌∷◌, ◌++◌, some, length, arith,
  if◌then◌else◌,
}
use effect_piano_light_contr.Base.Int.{ℤ}
use effect_piano_light_contr.Host.Text.{Word, num, text, Lines}
use effect_piano_light_contr.Host.Devices.{get_number, Device, input_only, Entry, list_devices}

-- No line of these begins with a number.
abbrev pub NoNumber : Lines → Type 0
NoNumber [] = Unit {0}
NoNumber ([] ∷ ls) = NoNumber ls
NoNumber ((num n ∷ ws) ∷ ls) = ⊥
NoNumber ((text s ∷ ws) ∷ ls) = NoNumber ls

-- `get_number` returns the first number that stands at the head of a line, whatever is typed in
-- front of it and behind it, and leaves what is typed on later lines; as many rounds as lines are
-- enough.
pub get_number_lem :
    (fuel : ℕ) (before : Lines) (n : ℤ) (ws : List Word) (after : Lines)
    → NoNumber before
    → length before < fuel
    → get_number fuel (before ++ (num n ∷ ws) ∷ after) ≡ some (n, after)
unfolding get_number
get_number_lem zero before n ws after h few = absurd (omega arith)
get_number_lem (suc fuel) [] n ws after h few = refl
get_number_lem (suc fuel) ([] ∷ ls) n ws after h few =
    get_number_lem (suc fuel) ls n ws after h (omega arith)
get_number_lem (suc fuel) ((num m ∷ vs) ∷ ls) n ws after h few = absurd h
get_number_lem (suc fuel) ((text s ∷ vs) ∷ ls) n ws after h few =
    get_number_lem fuel ls n ws after h (omega arith)

-- The numbers of the devices with input, from `i` on.
abbrev pub inputs_from : ℕ → List Device → List ℕ
inputs_from i [] = []
inputs_from i (d ∷ ds) = if d.input then i ∷ inputs_from (i + 1) ds else inputs_from (i + 1) ds

abbrev pub numbers : List Entry → List ℕ
numbers [] = []
numbers (e ∷ es) = e.number ∷ numbers es

-- The list that `main` prints names exactly the devices with input, in order and each by its number.
pub numbers-list_devices :
    (default_in default_out : ℤ) (i : ℕ) (ds : List Device)
    → numbers (list_devices input_only default_in default_out i ds) ≡ inputs_from i ds
unfolding list_devices
numbers-list_devices a b i [] = refl
numbers-list_devices a b i (d ∷ ds) = elim (Bool-cases d.input) [
  | inl e ↦ ground (arith, numbers-list_devices a b (i + 1) ds)
  | inr e ↦ ground (arith, numbers-list_devices a b (i + 1) ds)
]
