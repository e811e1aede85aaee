-- ===== src/Host/Devices.antt =====
-- The devices that `main` of Effect_Piano/Effect_Piano.cpp lists, the place of its window, and
-- `get_number`, by which one of the devices is chosen. What PortMidi and the system say of the
-- devices and of the desktop is given.
pub mod Numbers
use Prim.Native.String.{String}
use effect_piano_light_contr.Base.{
  ℕ, zero, suc, ◌+◌, Bool, true, false, ◌&&◌, ◌||◌, List, [], ◌∷◌, Option, none, some,
  if◌then◌else◌,
}
use effect_piano_light_contr.Base.Int.{ℤ, pos, ◌-ℤ◌, ◌*ℤ◌, div_trunc}
use effect_piano_light_contr.Host.Text.{Lines, scan_int}
use effect_piano_light_contr.Host.State.{same_int}

-- `fgets (line, STRING_MAX, stdin)`, where the rest of the line is shorter than STRING_MAX.
abbrev pub drop_line : Lines → Lines
drop_line [] = []
drop_line (l ∷ ls) = ls

-- Each round takes a line, so as many rounds as lines are enough: `Numbers.get_number_lem`. `none`:
-- no line that is typed begins with a number, and the loop goes on.
unfoldable pub get_number : ℕ → Lines → Option (ℤ × Lines)
unfolding scan_int
get_number zero ls = none
get_number (suc rounds) ls =
    let (n, rest) = scan_int ls in
    let again = get_number rounds (drop_line rest) in
    elim n [ none ↦ again | some i ↦ some (i, drop_line rest) ]

-- What `Pm_GetDeviceInfo` says of a device.
pub record Device : Type 0 where
  pub interf : String
  pub name : String
  pub input : Bool
  pub output : Bool

-- What is to be tested.
pub record Tests : Type 0 where
  pub test_input : Bool
  pub test_output : Bool
  pub test_both : Bool
  pub stream_test : Bool

-- `test_input = 1;` and the others 0
abbrev pub input_only : Tests
input_only = record {
  test_input = true;
  test_output = false;
  test_both = false;
  stream_test = false;
}

-- A line of the list: the number and the names, and, for a device with input or with output,
-- whether it is the default one.
pub record Entry : Type 0 where
  pub number : ℕ
  pub interf : String
  pub name : String
  pub as_input : Option Bool
  pub as_output : Option Bool

abbrev pub is_listed : Tests → Device → Bool
is_listed t d =
    (t.test_input || t.test_both) && d.input
    || (t.test_output || (t.test_both || t.stream_test)) && d.output

-- The devices from number `i` on.
unfoldable pub list_devices : Tests → ℤ → ℤ → ℕ → List Device → List Entry
list_devices t default_in default_out i [] = []
list_devices t default_in default_out i (d ∷ ds) =
    let rest = list_devices t default_in default_out (i + 1) ds in
    if is_listed t d
    then record {
      number = i;
      interf = d.interf;
      name = d.name;
      as_input = if d.input then some (same_int (pos i) default_in) else none;
      as_output = if d.output then some (same_int (pos i) default_out) else none;
    }
      ∷ rest
    else rest

-- A rectangle on the desktop.
pub record Rect : Type 0 where
  pub left : ℤ
  pub top : ℤ
  pub right : ℤ
  pub bottom : ℤ

-- What `MoveWindow` is called with.
pub record Place : Type 0 where
  pub x : ℤ
  pub y : ℤ
  pub width : ℤ
  pub height : ℤ

unfoldable pub window_place : Rect → Place
window_place desktop = record {
  x = div_trunc (desktop.right -ℤ desktop.left) 3 *ℤ pos 2;
  y = pos 0;
  width = div_trunc (desktop.right -ℤ desktop.left) 3;
  height = desktop.bottom -ℤ desktop.top;
}
