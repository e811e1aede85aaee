-- ===== src/Sketch/Commands.antt =====
-- The cases of the `switch` in `loop ()` of Effect_Piano_v1.3.0.ino, and `setup ()`.
pub mod Background
use effect_piano_light_contr.Base.{
  ℕ, zero, suc, ◌+◌, Bool, true, false, ◌||◌, [], ◌∷◌, none, some, ◌==◌, if◌then◌else◌,
}
use effect_piano_light_contr.Base.Int.{pos, ◌+ℤ◌, ◌-ℤ◌, leb_ℤ, div_trunc, low_byte}
use effect_piano_light_contr.Sketch.State.{
  on_pair, Crgb, Leds, FastLed, Sketch, crgb, black, end_color, plus, minus, update, fill, show,
  key_color, back_color, set_ends,
}
use effect_piano_light_contr.Sketch.Serial.{done, blocked, Serial, ◌>>=◌, pure, wait_byte}

-- The case labels; `other` is `default`.
pub data Command : Type 0 where
  clear circle_off circle_on change_color ends_off ends_on set_brightness : Command
  rainbow_on rainbow_off extend_on extend_off remain_on remain_off : Command
  reset background_on background_off other : Command

unfoldable pub decode : ℕ → Command
decode n =
    if n == 88
    then clear
    else if n == 90
    then circle_off
    else if n == 91
    then circle_on
    else if n == 89
    then change_color
    else if n == 97
    then ends_off
    else if n == 92
    then ends_on
    else if n == 93
    then set_brightness
    else if n == 94
    then rainbow_on
    else if n == 95
    then rainbow_off
    else if n == 96
    then extend_on
    else if n == 101
    then extend_off
    else if n == 98
    then remain_on
    else if n == 99
    then remain_off
    else if n == 125
    then reset
    else if n == 102
    then background_on
    else if n == 103
    then background_off
    else other

-- `for (i = …) { leds[i*2] = f (…); leds[i*2-1] = f (…); }` for the `n` keys from `i` on
unfoldable pub each_pair : (Crgb → Crgb) → ℕ → ℕ → Leds → Leds
each_pair f zero i leds = leds
each_pair f (suc n) i leds = each_pair f n (i + 1) (on_pair f i leds)

module _ (lib : FastLed) where
  unfoldable pub run_clear : Sketch → Sketch
  run_clear s = show (record s {
    leds = set_ends (if s.flagz then end_color else black) (lib.clear s.leds);
    flag = λ _. false;
    circle = 0;
  })

  unfoldable pub run_background_on : Sketch → Serial Sketch
  unfolding wait_byte
  run_background_on s = do
    br ← wait_byte
    bg ← wait_byte
    bb ← wait_byte
    pure (
        show (record s {
          on_background = true;
          br = br;
          bg = bg;
          bb = bb;
          leds = each_pair (λ c. plus lib c (crgb br bg bb)) 88 1 s.leds;
        }))

  unfoldable pub run_background_off : Sketch → Sketch
  run_background_off s = show (record s {
    on_background = false;
    leds = each_pair (λ c. minus lib c (back_color s)) 88 1 s.leds;
  })

unfoldable pub run_circle_off : Sketch → Sketch
run_circle_off s = show (record s { flagc = false; leds = fill 110 178 black s.leds; circle = 0 })

unfoldable pub run_circle_on : Sketch → Sketch
run_circle_on s = record s { flagc = true; re = false }

unfoldable pub run_change_color : Sketch → Serial Sketch
unfolding wait_byte
run_change_color s = do
  r ← wait_byte
  g ← wait_byte
  b ← wait_byte
  pure (record s {
    r = r;
    g = g;
    b = b;
    leds = set_ends (if s.flagz then crgb r g b else black) s.leds;
  })

unfoldable pub run_ends : Bool → Sketch → Sketch
run_ends on s =
    show (record s { flagz = on; leds = set_ends (if on then key_color s else black) s.leds })

unfoldable pub run_set_brightness : Sketch → Serial Sketch
unfolding wait_byte
run_set_brightness s = do
  brightness ← wait_byte
  pure (show (record s { brightness = brightness; level = brightness }))

unfoldable pub run_extend_on : Sketch → Serial Sketch
unfolding wait_byte
run_extend_on s = do n ← wait_byte; pure (record s { extend = true; numofextend = n })

unfoldable pub run_remain_on : Sketch → Serial Sketch
unfolding wait_byte
run_remain_on s = do n ← wait_byte; pure (record s { rm_status = true; rm_time = n })

-- One round of the loop in `setup ()`, behind its `Serial.read ()`.
unfoldable pub breathe : Sketch → Sketch
unfolding ◌+ℤ◌ ◌-ℤ◌
breathe s =
    let grey = low_byte (div_trunc s.starter 2) in
    let starter = s.starter +ℤ s.starterp in
    show (record s {
      leds = update 0 (crgb grey grey grey) s.leds;
      starter = starter;
      starterp =
          if leb_ℤ (pos 100) starter || leb_ℤ starter (pos 0)
          then pos 0 -ℤ s.starterp
          else s.starterp;
    })

-- `while (start != 127) …`: one round for each poll.
unfoldable pub wait_start : Sketch → Serial Sketch
unfolding breathe
wait_start s [] = blocked
wait_start s (none ∷ ps) = wait_start (breathe s) ps
wait_start s (some x ∷ ps) =
    let rest = wait_start (breathe s) ps in if x == 127 then done (breathe s) ps else rest

-- `setup ()` up to that loop, and behind it.
unfoldable pub setup_begin : Sketch → Sketch
setup_begin s = record s {
  flagc = true;
  flagz = true;
  level = 100;
  flag = λ _. false;
  leds = fill 286 1 black s.leds;
  starterp = pos 1;
}

unfoldable pub setup_end : Sketch → Sketch
setup_end s = show (record s {
  r = 20;
  g = 24;
  b = 127;
  leds = if s.flagz then set_ends end_color s.leds else s.leds;
})

unfoldable pub setup : Sketch → Serial Sketch
setup s = do ready ← wait_start (setup_begin s); pure (setup_end ready)
