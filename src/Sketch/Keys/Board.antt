-- ===== src/Sketch/Keys/Board.antt =====
-- The keys of Effect_Piano_v1.3.0.ino as a board: every LED shows what the lit keys give it.
use mathlib.Core.Path.{subst}
use effect_piano_light_contr.Base.{
  ℕ, ◌+◌, ◌*◌, ◌≤◌, ◌<◌, ◌≡◌, refl, sym, ◌∙◌, ap, inl, inr, Bool, Bool-cases, true, false, not,
  none, some, arith, if◌then◌else◌, [],
}
use effect_piano_light_contr.Sketch.State.{
  Crgb, FastLed, Leds, Saturates, Sketch, update, plus, minus, key_color, show, on_pair,
}
use effect_piano_light_contr.Sketch.Keys.{run_key, turn_circle}
use effect_piano_light_contr.Sketch.Keys.Shares.{touch}
use effect_piano_light_contr.Sketch.Keys.Bounds.{IsInReach, lights}
use effect_piano_light_contr.Sketch.Keys.Paint.{
  painted, IsWithin, Covers, Covers-update, less-IsWithin, paint_on, paint_off,
}
use effect_piano_light_contr.Sketch.Keys.Toggle.{
  share, struck, turned, key-Obeys, run_key_on, run_key-off, off,
}
use effect_piano_light_contr.Sketch.Keys.RingView.{SameRing, show-SameRing, turn-SameRing}
use effect_piano_light_contr.Sketch.Steps.{Obeys}

-- Neither a rainbow nor the fading is on.
pub record IsStill (s : Sketch) : Type 0 where
  pub no_rainbow : s.rbstatus ≡ false
  pub no_refresh : s.rb_refresh ≡ false
  pub no_fading : s.rm_status ≡ false

-- From `s` to `t` only the lights, the flags and the ring have changed.
abbrev pub SameSetup : Sketch → Sketch → Type 0
SameSetup s t = t ≡ record s {
  leds = t.leds;
  shown = t.shown;
  pin = t.pin;
  flag = t.flag;
  circle = t.circle;
  re = t.re;
}

abbrev after_key : Bool → FastLed → Crgb → Crgb → Crgb
after_key lit lib = if lit then minus lib else plus lib

-- What a key reaches lies below the ring.
abbrev pub IsBelow : ℕ → Sketch → Type 0
IsBelow num s = s.extend ≡ true → num * 2 + s.numofextend < 227

no_share : (s : Sketch) (num j : ℕ) → num ≤ 87 → IsBelow num s → 227 ≤ j → share s num j ≡ none
no_share s num j top below far = elim (Bool-cases s.extend) [
  | inl e ↦ let near = below e in ground arith
  | inr e ↦ ground arith
]

-- The LEDs of the ring behind a key that lies below it
untouched :
    (op : Crgb → Crgb → Crgb) (s : Sketch) (num : ℕ) (leds : Leds) {y : Crgb} (j : ℕ)
    → num ≤ 87
    → IsBelow num s
    → 227 ≤ j
    → y ≡ touch op (share s num j) (leds j)
    → y ≡ leds j
untouched op s num leds j top below far e =
    e ∙ ap (λ c. touch op c (leds j)) (no_share s num j top below far)

-- The byte `num`, taken as a key
pub record Strikes (lib : FastLed) (s : Sketch) (num : ℕ) (t : Sketch) : Type 0 where
  pub run : run_key lib num s ≡ some t
  pub same_setup : SameSetup s t
  pub flag : t.flag ≡ update num (not (s.flag num)) s.flag
  pub led :
      (j : ℕ) → j < 227 → t.leds j ≡ touch (after_key (s.flag num) lib) (share s num j) (s.leds j)
  pub ring : num ≤ 87 → IsBelow num s → SameRing (if s.flag num then s else turn_circle s) t

pub strikes :
    (lib : FastLed) (s : Sketch) (num : ℕ)
    → 2 ≤ num
    → IsStill s
    → IsInReach num s
    → (t : Sketch) × Strikes lib s num t
strikes lib s num lo still reach = elim (Bool-cases (s.flag num)) [
  | inl e ↦
      let dark =
        lights (minus lib) s num (on_pair (λ c. minus lib c (key_color s)) num s.leds) reach in
      (
        show (off lib num s dark.0),
        record {
          run = run_key-off lib num s dark.0 e still.no_fading dark.1;
          same_setup = rw (still.no_fading) refl;
          flag = rw e refl;
          led = λ j below. rw e (struck (minus lib) s num s.leds j lo dark.1);
          ring = λ top below. rw e (record {
            circle = refl;
            re = refl;
            on = refl;
            red = refl;
            green = refl;
            blue = refl;
            led = λ j far.
                untouched (minus lib) s num s.leds j top below far
                  (struck (minus lib) s num s.leds j lo dark.1);
          });
        },
      )
  | inr e ↦
      let lit =
        lights (plus lib) s num (on_pair (λ c. plus lib c (key_color s)) num s.leds) reach in
      let on : Sketch = record s { flag = update num true s.flag; pin = true; leds = lit.0 } in
      let ring = turned on in
      (
        show (record on { re = ring.0; circle = ring.1; leds = ring.2 }),
        record {
          run = run_key_on lib num s lit.0 e lit.1 ring.3;
          same_setup = refl;
          flag = rw e refl;
          led = λ j below. rw e (ring.4 j below ∙ struck (plus lib) s num s.leds j lo lit.1);
          ring = λ top below. rw e (
              show-SameRing (
                subst (SameRing (turn_circle s)) ring.3 (
                  turn-SameRing (record {
                    circle = refl;
                    re = refl;
                    on = refl;
                    red = refl;
                    green = refl;
                    blue = refl;
                    led = λ j far.
                        untouched (plus lib) s num s.leds j top below far
                          (struck (plus lib) s num s.leds j lo lit.1);
                  }))));
        },
      )
]

-- `t` is `s` with other lights: the keys that are lit are those of `on`, and each LED below the ring
-- that has room for all keys of `more` shows `base` and the shares of the keys of `on`.
pub record Shines (s : Sketch) (base : Leds) (more on : ℕ → Bool) (t : Sketch) : Type 0 where
  pub same_setup : SameSetup s t
  pub flag : t.flag ≡ on
  pub led :
      (j : ℕ) → j < 227 → IsWithin (painted s j more (base j)) → t.leds j ≡ painted s j on (base j)

-- A key that is lit is not, and the other way round.
abbrev pub flip : ℕ → (ℕ → Bool) → ℕ → Bool
flip num on = update num (not (on num)) on

pub IsStill-SameSetup : {s t : Sketch} → SameSetup s t → IsStill s → IsStill t
IsStill-SameSetup same still = subst IsStill (sym same) (record {
  no_rainbow = still.no_rainbow;
  no_refresh = still.no_refresh;
  no_fading = still.no_fading;
})

flip_paint :
    {lib : FastLed} (laws : Saturates lib) (s : Sketch) (num j : ℕ) (more on : ℕ → Bool) (x : Crgb)
    → num ≤ 87
    → Covers more (flip num on)
    → IsWithin (painted s j more x)
    → touch (after_key (on num) lib) (share s num j) (painted s j on x)
      ≡ painted s j (flip num on) x
flip_paint laws s num j more on x top cover h = elim (Bool-cases (on num)) [
  | inl e ↦ rw e (paint_off laws s num j on x top e)
  | inr e ↦ rw e (
      paint_on laws s num j on x top e
        (less-IsWithin s j more (update num true on) x (rw e at cover) h))
]

pub SameSetup-trans : (s t u : Sketch) → SameSetup s t → SameSetup t u → SameSetup s u
SameSetup-trans s t u p q =
    q
    ∙ ap
        (λ (v : Sketch). record v {
          leds = u.leds;
          shown = u.shown;
          pin = u.pin;
          flag = u.flag;
          circle = u.circle;
          re = u.re;
        })
        p

-- A key on a board
pub strike :
    {lib : FastLed} (laws : Saturates lib) {s t : Sketch} {base : Leds} {more on : ℕ → Bool}
    (num : ℕ)
    → 2 ≤ num
    → num ≤ 87
    → IsStill s
    → IsInReach num s
    → more num ≡ true
    → Covers more on
    → Shines s base more on t
    → (u : Sketch) × Obeys lib t num [] u × Shines s base more (flip num on) u
strike {lib} laws {s} {t} {base} {more} {on} num lo top still reach may cover shines =
    let still_t = IsStill-SameSetup shines.same_setup still in
    let (u, k) =
      strikes lib t num lo still_t (subst (IsInReach num) (sym shines.same_setup) reach) in
    (
      u,
      key-Obeys lib num t lo top still_t.no_rainbow still_t.no_refresh still_t.no_fading k.run,
      record {
        same_setup = SameSetup-trans s t u shines.same_setup k.same_setup;
        flag = k.flag ∙ ap (flip num) shines.flag;
        led = λ j below room.
            k.led j below
            ∙ ap (λ (f : ℕ → Bool). touch (after_key (f num) lib) (share t num j) (t.leds j))
                shines.flag
            ∙ ap (λ (v : Sketch). touch (after_key (on num) lib) (share v num j) (t.leds j))
                shines.same_setup
            ∙ ap (touch (after_key (on num) lib) (share s num j)) (shines.led j below room)
            ∙ flip_paint laws s num j more on (base j) top
                (Covers-update more on num (not (on num)) may cover) room;
      },
    )
