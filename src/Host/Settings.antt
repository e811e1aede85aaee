-- ===== src/Host/Settings.antt =====
-- The settings of Effect_Piano/Effect_Piano.cpp, and the file `<name>.efpdata` that holds them.
pub mod File
use effect_piano_light_contr.Base.{
  ℕ, ◌≡◌, Bool, true, false, not, List, [], ◌∷◌, ◌++◌, map, Option, none, some, take, if◌then◌else◌,
}
use effect_piano_light_contr.Base.Int.{ℤ, pos, ◌+ℤ◌, ◌-ℤ◌, pos_part, is_zero}
use effect_piano_light_contr.Host.Text.{
  Word, num, text, Lines, Reader, ◌>>=◌, ◌>>◌, pure, skip_word, read_word, read_int, skip_line,
  read_num, read_elems, scan_word, scan_int,
}

-- The globals that `read_set` reads, in its order. `serial_name` is `none` while it is empty.
pub record Settings : Type 0 where
  pub latency : ℤ
  pub show_in_front : Bool
  pub show_num_log : Bool
  pub on_circle : Bool
  pub on_ends : Bool
  pub serial_name : Option Word
  pub num_using_channel : ℤ
  pub on_using_channel : Bool
  pub using_channel : List ℤ
  pub num_ignore_channel : ℤ
  pub ignore_channel : List ℤ
  pub brightness : ℤ
  pub on_extend : Bool
  pub num_extend : ℤ
  pub on_remain : Bool
  pub num_remain : ℤ
  pub color_default : ℤ
  pub on_background : Bool
  pub bright_background : ℤ
  pub color_background_default : ℤ

-- An int stored in a `bool`, and a `bool` printed.
abbrev pub to_bool : ℤ → Bool
to_bool n = not (is_zero n)

abbrev pub of_bool : Bool → ℤ
of_bool true = pos 1
of_bool false = pos 0

-- The channels that are read if the number is not 0; else the array stays.
abbrev pub read_using : ℤ → List ℤ → Reader (List ℤ)
read_using n xs = if is_zero n then pure xs else read_elems (pos_part n) 0 xs

-- The parts of `read_set`, in order; `s` holds the values of the globals before each part.
-- Down to the switch of the LEDs at the ends:
unfoldable pub read_switches : Settings → Reader Settings
unfolding read_num
read_switches s = do
  latency ← read_num
  show_in_front ← read_num
  show_num_log ← read_num
  on_circle ← read_num
  on_ends ← read_num
  pure (record s {
    latency = latency;
    show_in_front = to_bool show_in_front;
    show_num_log = to_bool show_num_log;
    on_circle = to_bool on_circle;
    on_ends = to_bool on_ends;
  })

-- The name of the serial port, with the three lines before its own line's end:
unfoldable pub read_serial : Settings → Reader Settings
unfolding scan_word
read_serial s = do
  skip_line
  skip_word
  skip_line
  serial_name ← read_word s.serial_name
  skip_line
  pure (record s { serial_name = serial_name })

-- The channels that are used, and those that are ignored:
unfoldable pub read_used : Settings → Reader Settings
unfolding scan_word scan_int
read_used s = do
  skip_word
  n ← read_int s.num_using_channel
  xs ← read_using n s.using_channel
  skip_line
  pure (record s { num_using_channel = n; on_using_channel = to_bool n; using_channel = xs })

unfoldable pub read_ignored : Settings → Reader Settings
unfolding scan_word scan_int
read_ignored s = do
  skip_word
  n ← read_int s.num_ignore_channel
  xs ← read_elems (pos_part n) 0 s.ignore_channel
  skip_line
  pure (record s { num_ignore_channel = n; ignore_channel = xs })

-- From the brightness to the end:
unfoldable pub read_lights : Settings → Reader Settings
unfolding read_num
read_lights s = do
  brightness ← read_num
  on_extend ← read_num
  num_extend ← read_num
  on_remain ← read_num
  num_remain ← read_num
  color_default ← read_num
  on_background ← read_num
  bright_background ← read_num
  color_background ← read_num
  pure (record s {
    brightness = brightness;
    on_extend = to_bool on_extend;
    num_extend = num_extend;
    on_remain = to_bool on_remain;
    num_remain = num_remain;
    color_default = color_default -ℤ pos 1;
    on_background = to_bool on_background;
    bright_background = bright_background;
    color_background_default = color_background -ℤ pos 1;
  })

-- `read_set`, from the text of the file.
unfoldable pub read_set : Settings → Reader Settings
read_set s = do
  a ← read_switches s
  b ← read_serial a
  c ← read_used b
  d ← read_ignored c
  read_lights d

abbrev pub word_of : Option Word → List Word
word_of none = []
word_of (some w) = w ∷ []

-- The first lines that `print_set` prints, down to the switch of the LEDs at the ends.
abbrev pub print_head : Settings → Lines
print_head s =
    (text "latency=" ∷ num s.latency ∷ [])
    ∷ (text "show_in_front=" ∷ num (of_bool s.show_in_front) ∷ [])
    ∷ (text "show_number_log=" ∷ num (of_bool s.show_num_log) ∷ [])
    ∷ (text "circle_on=" ∷ num (of_bool s.on_circle) ∷ [])
    ∷ (text "LEDs_at_two_end=" ∷ num (of_bool s.on_ends) ∷ [])
    ∷ []

-- The last lines, from the brightness on.
abbrev pub print_lights : Settings → Lines
print_lights s =
    (text "brightness=" ∷ num s.brightness ∷ [])
    ∷ (text "extend_on=" ∷ num (of_bool s.on_extend) ∷ [])
    ∷ (text "extend_num=" ∷ num s.num_extend ∷ [])
    ∷ (text "remain_on=" ∷ num (of_bool s.on_remain) ∷ [])
    ∷ (text "remain_time=" ∷ num s.num_remain ∷ [])
    ∷ (text "color_default=" ∷ num (s.color_default +ℤ pos 1) ∷ [])
    ∷ (text "background_on=" ∷ num (of_bool s.on_background) ∷ [])
    ∷ (text "background_brightness=" ∷ num s.bright_background ∷ [])
    ∷ (text "background_color_default=" ∷ num (s.color_background_default +ℤ pos 1) ∷ [])
    ∷ []

-- The lines behind them. A channel past the end of its array is not printed.
abbrev pub print_rest : Settings → Lines
print_rest s =
    (text "serial_name=" ∷ [])
    ∷ word_of s.serial_name
    ∷ (text "using_channel="
        ∷ num s.num_using_channel
        ∷ map num (take (pos_part s.num_using_channel) s.using_channel))
    ∷ (text "ignore_channel="
        ∷ num s.num_ignore_channel
        ∷ map num (take (pos_part s.num_ignore_channel) s.ignore_channel))
    ∷ print_lights s

-- `print_set`, which `write_set` sends to the file.
unfoldable pub print_set : Settings → Lines
print_set s = print_head s ++ print_rest s
