-- ===== src/Sketch/Keys/Ring.antt =====
-- The ring of Effect_Piano_v1.3.0.ino, which moves by one LED with each key that goes on.
use mathlib.Core.Path.{subst}
use effect_piano_light_contr.Base.{
  sym, ap, ◌∙◌, refl, ℕ, zero, suc, ◌+◌, ◌/◌, ◌≤◌, ◌<◌, ◌≡◌, ◌⊎◌, inl, inr, Bool, true, false, not,
  ◌&&◌, ltb, leb, if◌then◌else◌, arith,
}
use effect_piano_light_contr.Sketch.State.{Crgb, Leds, Sketch, crgb, black, update}
use effect_piano_light_contr.Sketch.Keys.{turn_circle}

-- One key after the other, seen from the ring
abbrev pub turns : ℕ → Sketch → Sketch
turns zero s = s
turns (suc n) s = turns n (turn_circle s)

-- What the ring writes: half the colour of the keys, or black on the way that clears it.
abbrev pub ring_color : Bool → Sketch → Crgb
ring_color clears s = if clears then black else crgb (s.r / 2) (s.g / 2) (s.b / 2)

-- In front of a way around the ring: the first one, or the one behind another
abbrev pub AtStart : Bool → Sketch → Type 0
AtStart clears s = ((s.circle ≡ 0) × (s.re ≡ clears)) ⊎ ((s.circle ≡ 60) × (s.re ≡ not clears))

-- The first `n` LEDs from `227 + k` on have the colour `c`.
abbrev pub with_arc : ℕ → ℕ → Crgb → Leds → Leds
with_arc k n c leds j = if leb (227 + k) j && ltb j (227 + k + n) then c else leds j

moved : Bool → ℕ → Crgb → Sketch → Sketch
moved clears circle c s = record s {
  re = clears;
  circle = circle;
  leds = update (circle + 226) c s.leds;
}

turn_on :
    (s : Sketch) (clears : Bool)
    → s.flagc ≡ true
    → s.circle < 60
    → s.re ≡ clears
    → turn_circle s ≡ moved clears (s.circle + 1) (ring_color clears s) s
unfolding turn_circle moved
turn_on s clears on below e =
    let part : leb 60 s.circle ≡ false = ground arith in rw (on, part, e) refl

turn_over :
    (s : Sketch) (clears : Bool)
    → s.flagc ≡ true
    → s.circle ≡ 60
    → s.re ≡ not clears
    → turn_circle s ≡ moved clears 1 (ring_color clears s) s
unfolding turn_circle moved
turn_over s true on full e = rw (on, full, e) refl
turn_over s false on full e = rw (on, full, e) refl

-- `n` LEDs of the ring have been written.
record Filled (clears : Bool) (k n : ℕ) (s t : Sketch) : Type 0 where
  circle : t.circle ≡ k + n
  re : t.re ≡ clears
  on : t.flagc ≡ true
  led : (j : ℕ) → t.leds j ≡ with_arc k n (ring_color clears s) s.leds j

arc_none : (k j : ℕ) (c : Crgb) (leds : Leds) → leds j ≡ with_arc k 0 c leds j
arc_none k j c leds = ground arith

arc_step :
    (k n j : ℕ) (c : Crgb) (leds : Leds)
    → with_arc (k + 1) n c (update (k + 1 + 226) c leds) j ≡ with_arc k (suc n) c leds j
arc_step k n j c leds = ground arith

later :
    {clears : Bool} {k n : ℕ} {s t : Sketch}
    → Filled clears (k + 1) n (moved clears (k + 1) (ring_color clears s) s) t
    → Filled clears k (suc n) s t
unfolding moved
later {clears} {k} {n} {s} f = record {
  circle = omega (arith, f.circle);
  re = f.re;
  on = f.on;
  led = λ j. f.led j ∙ arc_step k n j (ring_color clears s) s.leds;
}

fills :
    (clears : Bool) (n : ℕ) (s : Sketch) {k : ℕ}
    → s.flagc ≡ true
    → s.circle ≡ k
    → s.re ≡ clears
    → k + n ≤ 60
    → Filled clears k n s (turns n s)
unfolding moved
fills clears zero s {k} on at e few = record {
  circle = omega (arith, at);
  re = e;
  on = on;
  led = λ j. arc_none k j (ring_color clears s) s.leds;
}
fills clears (suc n) s {k} on at e few =
    let there : turn_circle s ≡ moved clears (k + 1) (ring_color clears s) s =
      turn_on s clears on (omega arith) e
      ∙ ap (λ i. moved clears (i + 1) (ring_color clears s) s) at in
    later (
      subst
        (λ u. Filled clears (k + 1) n (moved clears (k + 1) (ring_color clears s) s) (turns n u))
        (sym there)
        (fills clears n (moved clears (k + 1) (ring_color clears s) s) on refl refl (omega arith)))

fills_over :
    (clears : Bool) (n : ℕ) (s : Sketch)
    → s.flagc ≡ true
    → s.circle ≡ 60
    → s.re ≡ not clears
    → n < 60
    → Filled clears 0 (suc n) s (turns (suc n) s)
unfolding moved
fills_over clears n s on full e few = later (
    subst (λ u. Filled clears 1 n (moved clears 1 (ring_color clears s) s) (turns n u))
      (sym (turn_over s clears on full e))
      (fills clears n (moved clears 1 (ring_color clears s) s) on refl refl (omega arith)))

fills_from :
    (clears : Bool) (n : ℕ) (s : Sketch)
    → s.flagc ≡ true
    → AtStart clears s
    → n < 60
    → Filled clears 0 (suc n) s (turns (suc n) s)
fills_from clears n s on (inl (none_yet, e)) few =
    fills clears (suc n) s on none_yet e (omega arith)
fills_from clears n s on (inr (full, e)) few = fills_over clears n s on full e few

-- Behind 1 to 60 moves, from in front of a way around the ring on
pub ring_fills :
    (clears : Bool) (n : ℕ) (s : Sketch)
    → s.flagc ≡ true
    → AtStart clears s
    → 1 ≤ n
    → n ≤ 60
    → ((j : ℕ) → (turns n s).leds j ≡ with_arc 0 n (ring_color clears s) s.leds j)
      × ((turns n s).circle ≡ n)
      × ((turns n s).re ≡ clears)
ring_fills clears zero s on start some_keys few = absurd (omega arith)
ring_fills clears (suc n) s on start some_keys few =
    let part = fills_from clears n s on start (omega arith) in
    (part.led, omega (arith, part.circle), part.re)
