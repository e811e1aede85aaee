-- ===== src/Sketch/Keys.antt =====
-- What stands behind the `switch` in `loop ()` of Effect_Piano_v1.3.0.ino: the rainbow, the fading
-- of released keys, and the keys. `none` is an access out of range of `leds`, or a division by 0.
pub mod Bounds
pub mod Fading
pub mod Extent
pub mod Shares
pub mod Toggle
pub mod Sums
pub mod Paint
pub mod Ring
pub mod RingView
pub mod Board
pub mod Parity
pub mod Turning
use effect_piano_light_contr.Base.{
  ℕ, zero, suc, ◌+◌, ◌-◌, ◌*◌, ◌/◌, ◌%◌, Bool, true, false, not, ◌&&◌, Option, none, some, ◌==◌,
  ltb, leb, if◌then◌else◌,
}
use effect_piano_light_contr.Sketch.State.{
  on_pair, Crgb, Leds, FastLed, Sketch, crgb, black, plus, minus, num_leds, update, fill, show,
  key_color, back_color, set_ends,
}

infixl 5 ◌>>=◌
abbrev pub ◌>>=◌ : {A B : Type 0} → Option A → (A → Option B) → Option B
none >>= f = none
some a >>= f = f a

-- A signed char above 0, as its byte.
abbrev pub is_positive : ℕ → Bool
is_positive x = ltb 0 x && ltb x 128

-- The part of the colour of LED `i` behind a key, where `n` are lit on each side.
abbrev pub glow : Sketch → ℕ → Crgb
glow s i =
    let part = λ (x : ℕ). x / (s.numofextend + 3) * (s.numofextend - i) in
    crgb (part s.r) (part s.g) (part s.b)

-- The loop over the LEDs beside `leds[at]` and `leds[at-1]`, `n` rounds from `i` on.
unfoldable pub spread : (Crgb → Crgb → Crgb) → Sketch → ℕ → ℕ → ℕ → Leds → Option Leds
spread op s at zero i leds = some leds
spread op s at (suc n) i leds =
    let c = glow s i in
    let right = update (at + i + 1) (op (leds (at + i + 1)) c) leds in
    let both = update (at - i - 2) (op (right (at - i - 2)) c) right in
    let rest = spread op s at n (i + 1) both in
    if ltb (at + i + 1) num_leds && leb (i + 2) at then rest else none

-- The part of the ring that moves with each key.
unfoldable pub turn_circle : Sketch → Sketch
turn_circle s =
    let full = leb 60 s.circle in
    let re = if full then not s.re else s.re in
    let circle = (if full then s.circle % 60 else s.circle) + 1 in
    if s.flagc
    then record s {
      re = re;
      circle = circle;
      leds =
          update (circle + 226) (if re then black else crgb (s.r / 2) (s.g / 2) (s.b / 2)) s.leds;
    }
    else s

-- The LEDs after a rainbow.
unfoldable pub run_refresh : Sketch → Sketch
run_refresh s =
    record (show (record s {
      leds = set_ends (if s.flagz then key_color s else black) (fill 286 1 black s.leds);
    })) { rb_refresh = false }

-- One round of the fading loop.
module _ (lib : FastLed) where
  unfoldable pub fade_key : ℕ → Sketch → Option Sketch
  fade_key i s =
      if is_positive (s.rm_times i)
      then (if s.rm_time == 0
          then none
          else some (record s {
            rm_times = update i (s.rm_times i - 1) s.rm_times;
            leds =
                if s.rm_times i - 1 == 0 && s.on_background && not (s.flag i)
                then on_pair (λ _. back_color s) i faded
                else faded;
          }))
      else some s
    where
      step : Crgb
      step = crgb (s.r / s.rm_time + 1) (s.g / s.rm_time + 1) (s.b / s.rm_time + 1)

      faded : Leds
      faded = on_pair (λ c. minus lib c step) i s.leds

  unfoldable pub fade_keys : ℕ → ℕ → Sketch → Option Sketch
  fade_keys zero i s = some s
  fade_keys (suc n) i s = fade_key i s >>= fade_keys n (i + 1)

  -- The two branches of the main part, up to `FastLED.show ()`.
  unfoldable pub key_on : ℕ → Sketch → Option Sketch
  key_on num s =
      (if s.extend then spread (plus lib) s (num * 2) s.numofextend 0 lit else some lit) >>= λ leds.
      some (turn_circle (record s { flag = update num true s.flag; pin = true; leds = leds }))
    where
      lit : Leds
      lit = on_pair (λ c. plus lib c (key_color s)) num s.leds

  unfoldable pub key_off : ℕ → Sketch → Option Sketch
  key_off num s =
      (if s.extend then spread (minus lib) s (num * 2) s.numofextend 0 dark else some dark)
      >>= λ leds. some (record s {
        flag = update num false s.flag;
        pin = false;
        rm_times =
            if s.rm_status
            then update num ((s.rm_times num + s.rm_time) % 256) s.rm_times
            else s.rm_times;
        leds = leds;
      })
    where
      dark : Leds
      dark = if s.rm_status then s.leds else on_pair (λ c. minus lib c (key_color s)) num s.leds

  unfoldable pub run_key : ℕ → Sketch → Option Sketch
  run_key num s = (if s.flag num then key_off num s else key_on num s) >>= λ s'. some (show s')

  unfoldable pub run_fade : Sketch → Option Sketch
  run_fade s = fade_keys 88 1 s >>= λ s'. some (show s')

  unfoldable pub run_rainbow : Sketch → Sketch
  run_rainbow s =
      record (show (record s { leds = lib.fill_rainbow 1 176 s.rb_begincolor 1 s.leds })) {
        rb_begincolor = (s.rb_begincolor + 1) % 256;
      }

  -- Everything behind the `switch`, for the byte `num`.
  unfoldable pub run_rest : ℕ → Sketch → Option Sketch
  run_rest num s =
      if s.rbstatus
      then some (run_rainbow s)
      else if s.rb_refresh
      then some (run_refresh s)
      else (if s.rm_status && num == 100 then run_fade s else some s) >>= λ s'.
          if leb 2 num && leb num 87 then run_key num s' else some s'
