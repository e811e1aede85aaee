-- ===== src/Sketch/Keys/Paint.antt =====
-- An LED of Effect_Piano_v1.3.0.ino under what all lit keys give it, and one key more or less.
use effect_piano_light_contr.Base.{
  ℕ, ◌+◌, ◌≤◌, ◌≡◌, refl, ap, inl, inr, Bool, Bool-cases, true, false, Option, none, some, ◌==◌,
  arith,
}
use effect_piano_light_contr.Sketch.State.{Crgb, FastLed, Saturates, Sketch, update, plus, minus}
use effect_piano_light_contr.Sketch.Keys.Shares.{touch}
use effect_piano_light_contr.Sketch.Keys.Sums.{sum, sum-update, sum-same, sum-le}
use effect_piano_light_contr.Sketch.Keys.Toggle.{share}

-- What a share gives
abbrev pub amount : Option Crgb → Crgb
amount none = record { red = 0; green = 0; blue = 0 }
amount (some c) = c

-- LED `j` over `x`, with the shares of the keys up to 87 that are on
abbrev pub painted : Sketch → ℕ → (ℕ → Bool) → Crgb → Crgb
painted s j on x = record {
  red = x.red + sum (λ k. (amount (share s k j)).red) on 88;
  green = x.green + sum (λ k. (amount (share s k j)).green) on 88;
  blue = x.blue + sum (λ k. (amount (share s k j)).blue) on 88;
}

-- All these keys together do not overflow a byte.
pub record IsWithin (c : Crgb) : Type 0 where
  pub red : c.red ≤ 255
  pub green : c.green ≤ 255
  pub blue : c.blue ≤ 255

-- The channels of the colour behind `touch`
plus-touch :
    {lib : FastLed} (laws : Saturates lib) (c : Option Crgb) (x y : Crgb)
    → y.red ≡ x.red + (amount c).red
    → y.green ≡ x.green + (amount c).green
    → y.blue ≡ x.blue + (amount c).blue
    → IsWithin y
    → touch (plus lib) c x ≡ y
plus-touch {lib} laws none x y r g b h = λ i. record {
  red = (let e : x.red ≡ y.red = omega (arith, r) in e) i;
  green = (let e : x.green ≡ y.green = omega (arith, g) in e) i;
  blue = (let e : x.blue ≡ y.blue = omega (arith, b) in e) i;
}
plus-touch {lib} laws (some c) x y r g b h = λ i. record {
  red = (qadd x.red c.red y.red r h.red) i;
  green = (qadd x.green c.green y.green g h.green) i;
  blue = (qadd x.blue c.blue y.blue b h.blue) i;
}
  where
    qadd : (a d s : ℕ) → s ≡ a + d → s ≤ 255 → lib.qadd8 a d ≡ s
    qadd a d s e k = rw (laws.qadd8_min a d) (omega (arith, e, k))

minus-touch_back :
    {lib : FastLed} (laws : Saturates lib) (c : Option Crgb) (x y : Crgb)
    → x.red ≡ y.red + (amount c).red
    → x.green ≡ y.green + (amount c).green
    → x.blue ≡ y.blue + (amount c).blue
    → touch (minus lib) c x ≡ y
minus-touch_back {lib} laws none x y r g b = λ i. record {
  red = (let e : x.red ≡ y.red = omega (arith, r) in e) i;
  green = (let e : x.green ≡ y.green = omega (arith, g) in e) i;
  blue = (let e : x.blue ≡ y.blue = omega (arith, b) in e) i;
}
minus-touch_back {lib} laws (some c) x y r g b = λ i. record {
  red = (qsub x.red c.red y.red r) i;
  green = (qsub x.green c.green y.green g) i;
  blue = (qsub x.blue c.blue y.blue b) i;
}
  where
    qsub : (a d s : ℕ) → a ≡ s + d → lib.qsub8 a d ≡ s
    qsub a d s e = rw (laws.qsub8_sub a d) (omega (arith, e))

-- The flags behind a key: `on` before, with the key on, with the key off
update_self : (on : ℕ → Bool) (num : ℕ) (b : Bool) → on num ≡ b → (k : ℕ) → on k ≡ update num b on k
update_self on num b e k = elim (Bool-cases (k == num)) [
  | inl p ↦ let same : k ≡ num = ground arith in rw (p, ap on same) e
  | inr p ↦ rw p refl
]

sum_on :
    (w : ℕ → ℕ) (num x : ℕ) (on : ℕ → Bool)
    → num ≤ 87
    → on num ≡ false
    → x + sum w (update num true on) 88 ≡ (x + sum w on 88) + w num
sum_on w num x on top dark = omega (
  arith,
  sum-update w num on 88 (omega arith),
  sum-same w on (update num false on) 88 (update_self on num false dark),
)

sum_off :
    (w : ℕ → ℕ) (num x : ℕ) (on : ℕ → Bool)
    → num ≤ 87
    → on num ≡ true
    → x + sum w on 88 ≡ (x + sum w (update num false on) 88) + w num
sum_off w num x on top lit = omega (
  arith,
  sum-update w num on 88 (omega arith),
  sum-same w on (update num true on) 88 (update_self on num true lit),
)

-- `more` has all keys that are on.
abbrev pub Covers : (ℕ → Bool) → (ℕ → Bool) → Type 0
Covers more on = (k : ℕ) → on k ≡ true → more k ≡ true

pub Covers-update :
    (more on : ℕ → Bool) (num : ℕ) (b : Bool)
    → more num ≡ true
    → Covers more on
    → Covers more (update num b on)
Covers-update more on num b h cover k e = elim (Bool-cases (k == num)) [
  | inl p ↦ let same : k ≡ num = ground arith in rw same h
  | inr p ↦ cover k (rw p at e)
]

pub less-IsWithin :
    (s : Sketch) (j : ℕ) (more on : ℕ → Bool) (x : Crgb)
    → Covers more on
    → IsWithin (painted s j more x)
    → IsWithin (painted s j on x)
less-IsWithin s j more on x cover h = record {
  red = omega (arith, h.red, sum-le (λ k. (amount (share s k j)).red) on more 88 cover);
  green = omega (arith, h.green, sum-le (λ k. (amount (share s k j)).green) on more 88 cover);
  blue = omega (arith, h.blue, sum-le (λ k. (amount (share s k j)).blue) on more 88 cover);
}

pub paint_on :
    {lib : FastLed} (laws : Saturates lib) (s : Sketch) (num j : ℕ) (on : ℕ → Bool) (x : Crgb)
    → num ≤ 87
    → on num ≡ false
    → IsWithin (painted s j (update num true on) x)
    → touch (plus lib) (share s num j) (painted s j on x) ≡ painted s j (update num true on) x
paint_on laws s num j on x top dark h =
    plus-touch laws (share s num j) _ (painted s j (update num true on) x)
      (sum_on (λ k. (amount (share s k j)).red) num x.red on top dark)
      (sum_on (λ k. (amount (share s k j)).green) num x.green on top dark)
      (sum_on (λ k. (amount (share s k j)).blue) num x.blue on top dark) h

pub paint_off :
    {lib : FastLed} (laws : Saturates lib) (s : Sketch) (num j : ℕ) (on : ℕ → Bool) (x : Crgb)
    → num ≤ 87
    → on num ≡ true
    → touch (minus lib) (share s num j) (painted s j on x) ≡ painted s j (update num false on) x
paint_off laws s num j on x top lit =
    minus-touch_back laws (share s num j) (painted s j on x) (painted s j (update num false on) x)
      (sum_off (λ k. (amount (share s k j)).red) num x.red on top lit)
      (sum_off (λ k. (amount (share s k j)).green) num x.green on top lit)
      (sum_off (λ k. (amount (share s k j)).blue) num x.blue on top lit)
