-- ===== src/Tests/Data.antt =====
-- Concrete states of the program and of the sketch.
use effect_piano_light_contr.Base.{
  ℕ, ◌+◌, ◌-◌, true, false, List, [], ◌∷◌, none, some, min, refl, replicate, ◌==◌,
}
use effect_piano_light_contr.Base.Int.{ℤ, pos}
use effect_piano_light_contr.Host.Link.{Link, lodata}
use effect_piano_light_contr.Host.Text.{text}
use effect_piano_light_contr.Host.Settings.{Settings}
use effect_piano_light_contr.Host.Palette.{Color, Palette, write_at}
use effect_piano_light_contr.Host.State.{Host}
use effect_piano_light_contr.Host.Keys.{Keyboard}
use effect_piano_light_contr.Sketch.State.{FastLed, Sketch, Saturates, fill, crgb, black}

-- FastLED as it documents itself, with a rainbow of a single hue.
abbrev pub library : FastLed
library = record {
  qadd8 = λ a b. min 255 (a + b);
  qsub8 = λ a b. a - b;
  clear = λ leds j. black;
  fill_rainbow = λ first count hue delta leds. fill count first (crgb hue 255 255) leds;
}

pub library-Saturates : Saturates library
library-Saturates = record { qadd8_min = λ a b. refl; qsub8_sub = λ a b. refl }

abbrev pub empty_link : Link
empty_link = record {
  op = 198;
  cl = 198;
  buf = replicate lodata (pos 0);
  behind = 0 ∷ [];
  wire = [];
}

abbrev pub channels : List ℤ
channels = replicate 128 (pos 0)

abbrev pub some_settings : Settings
some_settings = record {
  latency = pos 3;
  show_in_front = true;
  show_num_log = false;
  on_circle = true;
  on_ends = false;
  serial_name = some (text "COM3");
  num_using_channel = pos 2;
  on_using_channel = true;
  using_channel = pos 144 ∷ pos 145 ∷ replicate 126 (pos 0);
  num_ignore_channel = pos 1;
  ignore_channel = pos 254 ∷ replicate 127 (pos 0);
  brightness = pos 20;
  on_extend = true;
  num_extend = pos 3;
  on_remain = true;
  num_remain = pos 4;
  color_default = pos 0;
  on_background = true;
  bright_background = pos 128;
  color_background_default = pos 1;
}

abbrev pub white : Color
white = record { r = pos 200; g = pos 180; b = pos 160 }

abbrev pub blue : Color
blue = record { r = pos 20; g = pos 40; b = pos 240 }

abbrev pub some_palette : Palette
some_palette = record {
  num_color = pos 2;
  color = write_at 0 white (λ i. blue);
  color_background = blue;
  color_plus = white;
  color_bg_real = blue;
}

-- The names of the presets are not there.
abbrev pub some_host : Host
some_host = record {
  link = empty_link;
  settings = some_settings;
  palette = some_palette;
  panel = record {
    kbcd = pos 0;
    kbecd = pos 0;
    cdplus = pos 100;
    on_rainbow = false;
    contain_rainbow = false;
    rm_times = pos 6;
    rm_timer = pos 0;
  };
  catalog = record { num_set = pos 1; using_set = pos 0; name_set = λ i. some (text "default") };
  disk = λ name e. none;
}

-- CAPSLOCK is on, and `key` is down.
abbrev pub pressed : ℕ → Keyboard
pressed key = record { down = λ k. k == key; capslock = true }

abbrev pub some_sketch : Sketch
some_sketch = record {
  leds = λ j. black;
  shown = λ j. black;
  level = 63;
  pin = false;
  flag = λ i. false;
  circle = 0;
  re = false;
  flagc = true;
  flagz = false;
  r = 255;
  g = 255;
  b = 255;
  br = 0;
  bg = 0;
  bb = 0;
  brightness = 63;
  rb_begincolor = 0;
  rbstatus = false;
  rb_refresh = false;
  extend = true;
  numofextend = 4;
  rm_status = false;
  rm_time = 0;
  rm_times = λ i. 0;
  starter = pos 0;
  starterp = pos 0;
  on_background = false;
}
