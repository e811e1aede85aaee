-- ===== src/Sketch/Commands/Background.antt =====
-- The background light: on and off again.
use effect_piano_light_contr.Base.{
  ◌∙◌, ℕ, zero, suc, ◌+◌, ◌-◌, ◌*◌, ◌≤◌, ◌<◌, ◌≡◌, refl, ap, ◌⊎◌, inl, inr, Bool-cases, false, ◌||◌,
  [], ◌∷◌, ◌==◌, if◌then◌else◌, arith, min,
}
use native.Mathlib.Decide.{dec_lt}
use effect_piano_light_contr.Sketch.State.{
  Crgb, Leds, FastLed, Saturates, Sketch, crgb, on_pair, plus, minus,
}
use effect_piano_light_contr.Sketch.Serial.{bytes}
use effect_piano_light_contr.Sketch.Commands.{each_pair, run_background_off}
use effect_piano_light_contr.Sketch.Loop.{feed, ready}
use effect_piano_light_contr.Sketch.Obeys.{background_on-Obeys, background_off-Obeys}
use effect_piano_light_contr.Sketch.Steps.{step, stop, feed-Steps}

-- The two LEDs of a key, and no others.
pub on_pair_lem :
    (f : Crgb → Crgb) (i : ℕ) (leds : Leds) (j : ℕ)
    → 1 ≤ i
    → on_pair f i leds j ≡ (if j == i * 2 || j == i * 2 - 1 then f (leds j) else leds j)
on_pair_lem f i leds j h = ground arith

each_pair_outside :
    (f : Crgb → Crgb) (n i : ℕ) (leds : Leds) (j : ℕ)
    → 1 ≤ i
    → (j + 1 < i * 2) ⊎ (i * 2 + n * 2 ≤ j + 1)
    → each_pair f n i leds j ≡ leds j
unfolding each_pair
each_pair_outside f zero i leds j h k = refl
each_pair_outside f (suc n) i leds j h k =
    each_pair_outside f n (i + 1) (on_pair f i leds) j (omega arith) (omega arith)
    ∙ ground (arith, on_pair_lem f i leds j)

each_pair_inside :
    (f : Crgb → Crgb) (n i : ℕ) (leds : Leds) (j : ℕ)
    → 1 ≤ i
    → i * 2 ≤ j + 1
    → j + 1 < i * 2 + n * 2
    → each_pair f n i leds j ≡ f (leds j)
unfolding each_pair
each_pair_inside f zero i leds j h k l = absurd (omega arith)
each_pair_inside f (suc n) i leds j h k l = elim (Bool-cases (j == i * 2 || j == i * 2 - 1)) [
  | inl e ↦
      each_pair_outside f n (i + 1) (on_pair f i leds) j (omega arith) (ground arith)
      ∙ ground (arith, on_pair_lem f i leds j)
  | inr e ↦
      each_pair_inside f n (i + 1) (on_pair f i leds) j (omega arith) (ground arith) (omega arith)
      ∙ ground (arith, on_pair_lem f i leds j)
]

-- The channels of two colours add up within a byte.
pub record NoOverflow (c d : Crgb) : Type 0 where
  pub red : c.red + d.red ≤ 255
  pub green : c.green + d.green ≤ 255
  pub blue : c.blue + d.blue ≤ 255

byte-minus-plus :
    {lib : FastLed} (laws : Saturates lib) (a b : ℕ) → a + b ≤ 255 → lib.qsub8 (lib.qadd8 a b) b ≡ a
byte-minus-plus laws a b h =
    rw (laws.qadd8_min a b, laws.qsub8_sub (min 255 (a + b)) b) (omega arith)

pub minus-plus :
    {lib : FastLed} (laws : Saturates lib) (c d : Crgb)
    → NoOverflow c d
    → minus lib (plus lib c d) d ≡ c
minus-plus laws c d h = λ i. record {
  red = byte-minus-plus laws c.red d.red h.red i;
  green = byte-minus-plus laws c.green d.green h.green i;
  blue = byte-minus-plus laws c.blue d.blue h.blue i;
}

-- The loop over the keys, forth and back again.
each_pair-minus-plus :
    {lib : FastLed} (laws : Saturates lib) (d : Crgb) (leds : Leds) (j : ℕ)
    → NoOverflow (leds j) d
    → each_pair (λ c. minus lib c d) 88 1 (each_pair (λ c. plus lib c d) 88 1 leds) j ≡ leds j
each_pair-minus-plus {lib} laws d leds j h = elim (dec_lt 0 j) [
  | yes lo ↦ elim (dec_lt j 177) [
    | yes hi ↦
        each_pair_inside (λ c. minus lib c d) 88 1 _ j (omega arith) (omega arith) (omega arith)
        ∙ ap (λ c. minus lib c d)
            (each_pair_inside (λ c. plus lib c d) 88 1 leds j (omega arith) (omega arith)
              (omega arith))
        ∙ minus-plus laws (leds j) d h
    | no hi ↦
        each_pair_outside (λ c. minus lib c d) 88 1 _ j (omega arith) (inr (omega arith))
        ∙ each_pair_outside (λ c. plus lib c d) 88 1 leds j (omega arith) (inr (omega arith))
  ]
  | no lo ↦
      each_pair_outside (λ c. minus lib c d) 88 1 _ j (omega arith) (inl (omega arith))
      ∙ each_pair_outside (λ c. plus lib c d) 88 1 leds j (omega arith) (inl (omega arith))
]

-- If FastLED's sums and differences of bytes saturate: the background on in some colour and off
-- again, with 5 rounds or more of `loop`, in any state of the sketch: every LED whose
-- channels do not overflow under that colour is as it was, and no background is recorded.
pub background_on_off :
    {lib : FastLed} (laws : Saturates lib) (t : Sketch) (r g b fuel : ℕ)
    → 5 ≤ fuel
    → (t' : Sketch) × (feed lib fuel t (bytes (102 ∷ r ∷ g ∷ b ∷ 103 ∷ [])) ≡ ready t')
      × (t'.on_background ≡ false)
      × ((j : ℕ) → NoOverflow (t.leds j) (crgb r g b) → t'.leds j ≡ t.leds j)
unfolding run_background_off
background_on_off {lib} laws t r g b fuel enough = (
  _,
  feed-Steps lib fuel enough (
      step 102 (r ∷ g ∷ b ∷ []) (background_on-Obeys lib t r g b)
        (step 103 [] (background_off-Obeys lib _) (stop _))),
  refl,
  λ j h. each_pair-minus-plus laws (crgb r g b) t.leds j h,
)
