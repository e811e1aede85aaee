-- ===== src/Sketch/State.antt =====
-- The globals of Effect_Piano_v1.3.0.ino and what it uses of the FastLED library.
use effect_piano_light_contr.Base.{
  ℕ, zero, suc, ◌+◌, ◌-◌, ◌*◌, ◌%◌, ◌≡◌, Bool, min, ◌==◌, if◌then◌else◌,
}
use effect_piano_light_contr.Base.Int.{ℤ}

-- `CRGB`: three bytes.
pub record Crgb : Type 0 where
  pub red : ℕ
  pub green : ℕ
  pub blue : ℕ

-- `leds`, or what the strip shows
abbrev pub Leds : Type 0
Leds = ℕ → Crgb

-- The parts of FastLED that the sketch calls: the addition and subtraction of bytes behind
-- `CRGB::operator+=` and `-=`, `clear ()` and `fill_rainbow (leds + first, count, hue, delta)`.
pub record FastLed : Type 0 where
  pub qadd8 : ℕ → ℕ → ℕ
  pub qsub8 : ℕ → ℕ → ℕ
  pub clear : Leds → Leds
  pub fill_rainbow : ℕ → ℕ → ℕ → ℕ → Leds → Leds

-- As FastLED documents them: sums and differences stop at the end of the byte's range.
pub record Saturates (lib : FastLed) : Type 0 where
  pub qadd8_min : (a b : ℕ) → lib.qadd8 a b ≡ min 255 (a + b)
  pub qsub8_sub : (a b : ℕ) → lib.qsub8 a b ≡ a - b

abbrev pub num_leds : ℕ
num_leds = 288

-- `CRGB (r, g, b)` keeps the low bytes.
abbrev pub crgb : ℕ → ℕ → ℕ → Crgb
crgb r g b = record { red = r % 256; green = g % 256; blue = b % 256 }

abbrev pub black : Crgb
black = crgb 0 0 0

-- The colour of the LEDs at the ends before one is set.
abbrev pub end_color : Crgb
end_color = crgb 140 154 255

module _ (lib : FastLed) where
  abbrev pub plus : Crgb → Crgb → Crgb
  plus c d = record {
    red = lib.qadd8 c.red d.red;
    green = lib.qadd8 c.green d.green;
    blue = lib.qadd8 c.blue d.blue;
  }

  abbrev pub minus : Crgb → Crgb → Crgb
  minus c d = record {
    red = lib.qsub8 c.red d.red;
    green = lib.qsub8 c.green d.green;
    blue = lib.qsub8 c.blue d.blue;
  }

-- The globals. `rm_times` holds signed chars as their bytes. `level` is what `setBrightness` was
-- given last, `shown` what `show` put on the strip last, `pin` the LED on pin 13.
pub record Sketch : Type 0 where
  pub leds : Leds
  pub shown : Leds
  pub level : ℕ
  pub pin : Bool
  pub flag : ℕ → Bool
  pub circle : ℕ
  pub re : Bool
  pub flagc : Bool
  pub flagz : Bool
  pub r : ℕ
  pub g : ℕ
  pub b : ℕ
  pub br : ℕ
  pub bg : ℕ
  pub bb : ℕ
  pub brightness : ℕ
  pub rb_begincolor : ℕ
  pub rbstatus : Bool
  pub rb_refresh : Bool
  pub extend : Bool
  pub numofextend : ℕ
  pub rm_status : Bool
  pub rm_time : ℕ
  pub rm_times : ℕ → ℕ
  pub starter : ℤ
  pub starterp : ℤ
  pub on_background : Bool

-- `xs[i] = x;`
abbrev pub update {ℓ} : {A : Type ℓ} → ℕ → A → (ℕ → A) → ℕ → A
update i x xs j = if j == i then x else xs j

-- `leds[i] = x;` for the `n` indices from `i` on
unfoldable pub fill : ℕ → ℕ → Crgb → Leds → Leds
fill zero i x leds = leds
fill (suc n) i x leds = fill n (i + 1) x (update i x leds)

-- `FastLED.show ();`
abbrev pub show : Sketch → Sketch
show s = record s { shown = s.leds }

-- The colour of keys, and that of the background.
abbrev pub key_color : Sketch → Crgb
key_color s = crgb s.r s.g s.b

abbrev pub back_color : Sketch → Crgb
back_color s = crgb s.br s.bg s.bb

-- `leds[0] = x; leds[177] = x;`
abbrev pub set_ends : Crgb → Leds → Leds
set_ends x leds = update 177 x (update 0 x leds)

-- `leds[i*2] = f (…); leds[i*2-1] = f (…);`
abbrev pub on_pair : (Crgb → Crgb) → ℕ → Leds → Leds
on_pair f i leds =
    let upper = update (i * 2) (f (leds (i * 2))) leds in
    update (i * 2 - 1) (f (upper (i * 2 - 1))) upper
