-- ===== src/Sketch/Obeys.antt =====
-- The command behind each byte that the program sends, with the bytes that it takes.
use effect_piano_light_contr.Base.{ℕ, refl, true, false, [], ◌∷◌, ◌≡◌}
use effect_piano_light_contr.Sketch.State.{FastLed, Sketch, crgb, plus, show}
use effect_piano_light_contr.Sketch.Commands.{
  decode, each_pair, run_clear, run_circle_off, run_circle_on, run_change_color, run_ends,
  run_set_brightness, run_extend_on, run_remain_on, run_background_on, run_background_off, setup,
  setup_begin, setup_end, wait_start, breathe,
}
use effect_piano_light_contr.Sketch.Loop.{run_command}
use effect_piano_light_contr.Sketch.Steps.{Obeys}

module _ (lib : FastLed) (s : Sketch) where
  pub clear-Obeys : Obeys lib s 88 [] (run_clear lib s)
  unfolding run_command decode
  clear-Obeys = record { takes = λ ps. refl }

  pub circle_on-Obeys : Obeys lib s 91 [] (run_circle_on s)
  unfolding run_command decode
  circle_on-Obeys = record { takes = λ ps. refl }

  pub circle_off-Obeys : Obeys lib s 90 [] (run_circle_off s)
  unfolding run_command decode
  circle_off-Obeys = record { takes = λ ps. refl }

  pub ends_on-Obeys : Obeys lib s 92 [] (run_ends true s)
  unfolding run_command decode
  ends_on-Obeys = record { takes = λ ps. refl }

  pub ends_off-Obeys : Obeys lib s 97 [] (run_ends false s)
  unfolding run_command decode
  ends_off-Obeys = record { takes = λ ps. refl }

  pub extend_off-Obeys : Obeys lib s 101 [] (record s { extend = false })
  unfolding run_command decode
  extend_off-Obeys = record { takes = λ ps. refl }

  pub remain_off-Obeys : Obeys lib s 99 [] (record s { rm_status = false })
  unfolding run_command decode
  remain_off-Obeys = record { takes = λ ps. refl }

  pub background_off-Obeys : Obeys lib s 103 [] (run_background_off lib s)
  unfolding run_command decode
  background_off-Obeys = record { takes = λ ps. refl }

  pub extend_on-Obeys :
      (n : ℕ) → Obeys lib s 96 (n ∷ []) (record s { extend = true; numofextend = n })
  unfolding run_command decode run_extend_on
  extend_on-Obeys n = record { takes = λ ps. refl }

  pub remain_on-Obeys :
      (n : ℕ) → Obeys lib s 98 (n ∷ []) (record s { rm_status = true; rm_time = n })
  unfolding run_command decode run_remain_on
  remain_on-Obeys n = record { takes = λ ps. refl }

  pub brightness-Obeys :
      (n : ℕ) → Obeys lib s 93 (n ∷ []) (show (record s { brightness = n; level = n }))
  unfolding run_command decode run_set_brightness
  brightness-Obeys n = record { takes = λ ps. refl }

  pub color-Obeys :
      (r g b : ℕ)
      → (s' : Sketch) × Obeys lib s 89 (r ∷ g ∷ b ∷ []) s'
        × (s' ≡ record s { r = r; g = g; b = b; leds = s'.leds })
  unfolding run_command decode run_change_color
  color-Obeys r g b = (_, record { takes = λ ps. refl }, refl)

  pub background_on-Obeys :
      (r g b : ℕ)
      → Obeys lib s 102 (r ∷ g ∷ b ∷ []) (
          show (record s {
            on_background = true;
            br = r;
            bg = g;
            bb = b;
            leds = each_pair (λ c. plus lib c (crgb r g b)) 88 1 s.leds;
          }))
  unfolding run_command decode run_background_on
  background_on-Obeys r g b = record { takes = λ ps. refl }

  -- `setup ()` goes on with the first 127.
  pub reset-Obeys : Obeys lib s 125 (127 ∷ []) (setup_end (breathe (setup_begin s)))
  unfolding run_command decode setup wait_start
  reset-Obeys = record { takes = λ ps. refl }
