-- ===== src/Sketch/Keys/Turning.antt =====
-- Any sequence of keys of Effect_Piano_v1.3.0.ino, and the ring.
use mathlib.Core.Path.{subst}
use effect_piano_light_contr.Base.{
  ℕ, suc, ◌≤◌, ◌≡◌, refl, sym, ◌∙◌, inl, inr, Bool, Bool-cases, true, if◌then◌else◌, List, [], ◌∷◌,
  length,
}
use effect_piano_light_contr.Sketch.State.{FastLed, Sketch}
use effect_piano_light_contr.Sketch.Serial.{bytes}
use effect_piano_light_contr.Sketch.Loop.{feed, ready}
use effect_piano_light_contr.Sketch.Steps.{Steps, step, stop, feed-Steps}
use effect_piano_light_contr.Sketch.Keys.{turn_circle}
use effect_piano_light_contr.Sketch.Keys.Bounds.{IsInReach}
use effect_piano_light_contr.Sketch.Keys.Toggle.{key-Obeys}
use effect_piano_light_contr.Sketch.Keys.Ring.{turns, ring_color, AtStart, with_arc, ring_fills}
use effect_piano_light_contr.Sketch.Keys.RingView.{SameRing, SameRing-trans, turns-SameRing}
use effect_piano_light_contr.Sketch.Keys.Board.{
  IsStill, IsBelow, SameSetup, SameSetup-trans, IsStill-SameSetup, strikes, flip,
}

-- The bytes of keys with all that they reach in range and below the ring.
pub data AreBelow (s : Sketch) : List ℕ → Type 0 where
  no_keys : AreBelow s []
  then_key :
      {k : ℕ} {ks : List ℕ}
      → 2 ≤ k
      → k ≤ 87
      → IsInReach k s
      → IsBelow k s
      → AreBelow s ks
      → AreBelow s (k ∷ ks)

-- How many of the keys go on
abbrev pub ons : List ℕ → (ℕ → Bool) → ℕ
ons [] on = 0
ons (k ∷ ks) on = let rest = ons ks (flip k on) in if on k then rest else suc rest

turns_first :
    (k : ℕ) (ks : List ℕ) (on : ℕ → Bool) (t : Sketch)
    → turns (ons ks (flip k on)) (if on k then t else turn_circle t) ≡ turns (ons (k ∷ ks) on) t
turns_first k ks on t = elim (Bool-cases (on k)) [ inl e ↦ rw e refl | inr e ↦ rw e refl ]

module _ (lib : FastLed) {s : Sketch} (still : IsStill s) where
  keys-SameRing :
      (t : Sketch) {ks : List ℕ}
      → SameSetup s t
      → AreBelow s ks
      → (u : Sketch) × Steps lib t ks u × SameSetup s u × SameRing (turns (ons ks t.flag) t) u
  keys-SameRing t same no_keys = (
    t,
    stop t,
    same,
    record {
      circle = refl;
      re = refl;
      on = refl;
      red = refl;
      green = refl;
      blue = refl;
      led = λ j h. refl;
    },
  )
  keys-SameRing t same (then_key {k} {ks} lo top reach below keys) =
      let still_t = IsStill-SameSetup same still in
      let (v, key) = strikes lib t k lo still_t (subst (IsInReach k) (sym same) reach) in
      let (u, steps, same', ring) =
        keys-SameRing v (SameSetup-trans s t v same key.same_setup) keys in
      let first =
        turns-SameRing (ons ks (flip k t.flag))
          (key.ring top (subst (IsBelow k) (sym same) below)) in
      (
        u,
        step k []
            (key-Obeys lib k t lo top still_t.no_rainbow still_t.no_refresh still_t.no_fading
              key.run)
            steps,
        same',
        subst (λ x. SameRing x u) (turns_first k ks t.flag t)
            (SameRing-trans first (subst (λ on. SameRing (turns (ons ks on) v) u) key.flag ring)),
      )

-- While neither a rainbow nor the fading is on, with the ring on and in front of a way around it: the
-- sketch takes any sequence of keys from 2 to 87, each with all that it reaches in range and below the
-- ring, of which 1 to 60 go on. As many LEDs from 227 on as keys go on have half the colour of the keys,
-- or are black on the way that clears the ring, and the others from 227 on are as they were; the sketch
-- has counted as many, still on that way.
pub keys_turn_ring :
    (lib : FastLed) (clears : Bool) (s : Sketch) (ks : List ℕ) (fuel : ℕ)
    → IsStill s
    → AreBelow s ks
    → length ks ≤ fuel
    → s.flagc ≡ true
    → AtStart clears s
    → 1 ≤ ons ks s.flag
    → ons ks s.flag ≤ 60
    → (t : Sketch) × (feed lib fuel s (bytes ks) ≡ ready t)
      × ((j : ℕ) → 227 ≤ j → t.leds j ≡ with_arc 0 (ons ks s.flag) (ring_color clears s) s.leds j)
      × (t.circle ≡ ons ks s.flag)
      × (t.re ≡ clears)
keys_turn_ring lib clears s ks fuel still keys enough on start some_keys few =
    let (t, steps, same, ring) = keys-SameRing lib still s refl keys in
    let (led, circle, re) = ring_fills clears (ons ks s.flag) s on start some_keys few in
    (
      t,
      feed-Steps lib fuel enough steps,
      λ j h. ring.led j h ∙ led j,
      ring.circle ∙ circle,
      ring.re ∙ re,
    )
