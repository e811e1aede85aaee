-- ===== src/Sketch/Keys/RingView.antt =====
-- The part of the sketch of Effect_Piano_v1.3.0.ino that the ring is about.
use mathlib.Core.Path.{subst}
use effect_piano_light_contr.Base.{
  sym, ap, ◌∙◌, ℕ, zero, suc, ◌+◌, ◌/◌, ◌%◌, ◌≤◌, ◌≡◌, refl, inl, inr, Bool, Bool-cases, true,
  false, not, ◌==◌, leb, if◌then◌else◌,
}
use effect_piano_light_contr.Sketch.State.{Sketch, crgb, black, update, show}
use effect_piano_light_contr.Sketch.Keys.{turn_circle}
use effect_piano_light_contr.Sketch.Keys.Ring.{turns, ring_color}

-- As far as the ring is concerned, `t` is as `s`.
pub record SameRing (s t : Sketch) : Type 0 where
  pub circle : t.circle ≡ s.circle
  pub re : t.re ≡ s.re
  pub on : t.flagc ≡ s.flagc
  pub red : t.r ≡ s.r
  pub green : t.g ≡ s.g
  pub blue : t.b ≡ s.b
  pub led : (j : ℕ) → 227 ≤ j → t.leds j ≡ s.leds j

pub SameRing-trans : {s t u : Sketch} → SameRing s t → SameRing t u → SameRing s u
SameRing-trans p q = record {
  circle = q.circle ∙ p.circle;
  re = q.re ∙ p.re;
  on = q.on ∙ p.on;
  red = q.red ∙ p.red;
  green = q.green ∙ p.green;
  blue = q.blue ∙ p.blue;
  led = λ j h. q.led j h ∙ p.led j h;
}

abbrev next_circle : ℕ → ℕ
next_circle c = (if leb 60 c then c % 60 else c) + 1

abbrev next_re : ℕ → Bool → Bool
next_re c re = if leb 60 c then not re else re

moves : Sketch → Sketch
moves s = record s {
  re = next_re s.circle s.re;
  circle = next_circle s.circle;
  leds = update (next_circle s.circle + 226) (ring_color (next_re s.circle s.re) s) s.leds;
}

turn_moves : (s : Sketch) → s.flagc ≡ true → turn_circle s ≡ moves s
unfolding turn_circle moves
turn_moves s on = rw on refl

turn_rests : (s : Sketch) → s.flagc ≡ false → turn_circle s ≡ s
unfolding turn_circle
turn_rests s on = rw on refl

moves-SameRing : {s t : Sketch} → SameRing s t → SameRing (moves s) (moves t)
unfolding moves
moves-SameRing {s} {t} p = record {
  circle = ap next_circle p.circle;
  re = λ i. next_re (p.circle i) (p.re i);
  on = p.on;
  red = p.red;
  green = p.green;
  blue = p.blue;
  led = λ j h i.
      if j == next_circle (p.circle i) + 226
      then (if next_re (p.circle i) (p.re i)
          then black
          else crgb (p.red i / 2) (p.green i / 2) (p.blue i / 2))
      else p.led j h i;
}

pub turn-SameRing : {s t : Sketch} → SameRing s t → SameRing (turn_circle s) (turn_circle t)
turn-SameRing {s} {t} p = elim (Bool-cases s.flagc) [
  | inl e ↦
      subst (λ x. SameRing x (turn_circle t)) (sym (turn_moves s e))
        (subst (SameRing (moves s)) (sym (turn_moves t (p.on ∙ e))) (moves-SameRing p))
  | inr e ↦
      subst (λ x. SameRing x (turn_circle t)) (sym (turn_rests s e))
        (subst (SameRing s) (sym (turn_rests t (p.on ∙ e))) p)
]

pub turns-SameRing : (n : ℕ) {s t : Sketch} → SameRing s t → SameRing (turns n s) (turns n t)
turns-SameRing zero p = p
turns-SameRing (suc n) p = turns-SameRing n (turn-SameRing p)

pub show-SameRing : {s t : Sketch} → SameRing s t → SameRing s (show t)
show-SameRing p = record {
  circle = p.circle;
  re = p.re;
  on = p.on;
  red = p.red;
  green = p.green;
  blue = p.blue;
  led = p.led;
}
