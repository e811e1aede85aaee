-- ===== src/Sketch/Keys/Toggle.antt =====
-- A key that is struck and struck again.
use effect_piano_light_contr.Base.{
  sym, ℕ, ◌+◌, ◌-◌, ◌*◌, ◌/◌, ◌%◌, not, ◌≤◌, ◌<◌, ◌≡◌, ◌⊎◌, ◌∙◌, refl, ap, inl, inr, Bool,
  Bool-cases, true, false, ◌&&◌, ◌||◌, Option, none, some, leb, ◌==◌, if◌then◌else◌, arith, [], ◌∷◌,
}
use mathlib.Core.Option.{some-injective}
use effect_piano_light_contr.Sketch.State.{
  Crgb, crgb, black, Leds, FastLed, Saturates, Sketch, key_color, update, on_pair, plus, minus,
  show,
}
use effect_piano_light_contr.Sketch.Serial.{bytes}
use effect_piano_light_contr.Sketch.Commands.{decode, other}
use effect_piano_light_contr.Sketch.Commands.Background.{NoOverflow, on_pair_lem, minus-plus}
use effect_piano_light_contr.Sketch.Keys.{
  spread, glow, turn_circle, key_on, key_off, run_key, run_rest, run_fade, ◌>>=◌,
}
use effect_piano_light_contr.Sketch.Keys.Bounds.{IsInReach, lights}
use effect_piano_light_contr.Sketch.Keys.Shares.{beside, touch, spread_lem}
use effect_piano_light_contr.Sketch.Loop.{lift, feed, ready, run_command}
use effect_piano_light_contr.Sketch.Steps.{Obeys, step, stop, feed-Steps}

-- What the key `num` adds at LED `j`.
abbrev pub share : Sketch → ℕ → ℕ → Option Crgb
share s num j =
    if j == num * 2 || j == num * 2 - 1
    then some (key_color s)
    else if s.extend
    then beside (glow s) (num * 2) s.numofextend 0 j
    else none

-- The share fits the colour that is there.
abbrev pub HasRoom : Option Crgb → Crgb → Type 0
HasRoom none x = Unit {0}
HasRoom (some c) x = NoOverflow x c

minus-touch :
    {lib : FastLed} (laws : Saturates lib) (c : Option Crgb) (x : Crgb)
    → HasRoom c x
    → touch (minus lib) c (touch (plus lib) c x) ≡ x
minus-touch laws none x h = refl
minus-touch laws (some c) x h = minus-plus laws x c h

-- The pair itself is not beside it.
beside_pair : (g : ℕ → Crgb) (at n j : ℕ) → (j ≡ at) ⊎ (j ≡ at - 1) → beside g at n 0 j ≡ none
beside_pair g at n j h = ground arith

-- The pair of LEDs of a key, and those beside it.
pub struck :
    (op : Crgb → Crgb → Crgb) (s : Sketch) (num : ℕ) (leds : Leds) {out : Leds} (j : ℕ)
    → 2 ≤ num
    → (if s.extend
        then spread op s (num * 2) s.numofextend 0 (on_pair (λ c. op c (key_color s)) num leds)
        else some (on_pair (λ c. op c (key_color s)) num leds))
      ≡ some out
    → out j ≡ touch op (share s num j) (leds j)
unfolding spread
struck op s num leds {out} j lo h = elim (Bool-cases s.extend) [
  | inl e ↦
      spread_lem op s (num * 2) s.numofextend 0 (on_pair (λ c. op c (key_color s)) num leds) j
        (rw e at h)
      ∙ (elim (Bool-cases (j == num * 2 || j == num * 2 - 1)) [
        | inl p ↦ rw (
          beside_pair (glow s) (num * 2) s.numofextend j (ground arith),
          on_pair_lem (λ c. op c (key_color s)) num leds j (omega arith),
          p,
        )
        | inr p ↦ rw (on_pair_lem (λ c. op c (key_color s)) num leds j (omega arith), p, e)
      ])
  | inr e ↦
      ap (λ f. f j) (sym (some-injective _ _ (rw e at h)))
      ∙ on_pair_lem (λ c. op c (key_color s)) num leds j (omega arith)
      ∙ (elim (Bool-cases (j == num * 2 || j == num * 2 - 1)) [ inl p ↦ rw p | inr p ↦ rw (p, e) ])
]

-- The ring takes no LED below 227.
pub turned :
    (s : Sketch)
    → (re : Bool) × (circle : ℕ) × (leds : Leds) × (turn_circle s
        ≡ record s { re = re; circle = circle; leds = leds })
      × ((j : ℕ) → j < 227 → leds j ≡ s.leds j)
unfolding turn_circle
turned s = elim (Bool-cases s.flagc) [
  | inl e ↦
      (let full = leb 60 s.circle in
        let re = if full then not s.re else s.re in
        let circle = (if full then s.circle % 60 else s.circle) + 1 in
        (
          re,
          circle,
          update (circle + 226) (if re then black else crgb (s.r / 2) (s.g / 2) (s.b / 2)) s.leds,
          rw e,
          λ j h. ground arith,
        ))
  | inr e ↦ (s.re, s.circle, s.leds, rw e, λ j h. refl)
]

decode_key : (num : ℕ) → num ≤ 87 → decode num ≡ other
unfolding decode
decode_key num h = ground arith

-- The branches of what stands behind the `switch`.
past_rainbow :
    {rainbow refresh fade key : Bool} (a b s : Sketch) (c : Option Sketch)
    (f : Sketch → Option Sketch)
    → rainbow ≡ false
    → refresh ≡ false
    → fade ≡ false
    → key ≡ true
    → (if rainbow
        then some a
        else if refresh
        then some b
        else (if fade then c else some s) >>= λ s'. if key then f s' else some s')
      ≡ f s
past_rainbow a b s c f e g h k = rw (e, g, h, k)

module _ (lib : FastLed) where
  pub key-Obeys :
      (num : ℕ) (s : Sketch) {t : Sketch}
      → 2 ≤ num
      → num ≤ 87
      → s.rbstatus ≡ false
      → s.rb_refresh ≡ false
      → s.rm_status ≡ false
      → run_key lib num s ≡ some t
      → Obeys lib s num [] t
  unfolding run_command run_rest
  key-Obeys num s {t} lo hi e f g h =
      let rest : run_rest lib num s ≡ some t =
        past_rainbow {fade = s.rm_status && num == 100} {key = leb 2 num && leb num 87} _ _ s
          (run_fade lib s) (run_key lib num) e f (ground arith) (ground arith)
        ∙ h in
      record { takes = λ ps. rw (decode_key num hi, run_command) (ap (λ o. lift o ps) rest) }

if_true : {A : Type 0} {b : Bool} (x y : A) → b ≡ true → (if b then x else y) ≡ x
if_true x y e = rw e

if_false : {A : Type 0} {b : Bool} (x y : A) → b ≡ false → (if b then x else y) ≡ y
if_false x y e = rw e

-- The LEDs of a key when it goes on, and when it goes off.
abbrev pub lit_leds : FastLed → Sketch → ℕ → Option Leds
lit_leds lib s num =
    let lit = on_pair (λ c. plus lib c (key_color s)) num s.leds in
    if s.extend then spread (plus lib) s (num * 2) s.numofextend 0 lit else some lit

abbrev pub dark_leds : FastLed → Sketch → ℕ → Option Leds
dark_leds lib s num =
    let dark = on_pair (λ c. minus lib c (key_color s)) num s.leds in
    if s.extend then spread (minus lib) s (num * 2) s.numofextend 0 dark else some dark

module _ (lib : FastLed) (num : ℕ) (s : Sketch) where
  pub run_key_on :
      (leds : Leds) {w : Sketch}
      → s.flag num ≡ false
      → lit_leds lib s num ≡ some leds
      → turn_circle (record s { flag = update num true s.flag; pin = true; leds = leds }) ≡ w
      → run_key lib num s ≡ some (show w)
  unfolding run_key key_on
  run_key_on leds {w} dark found ring =
      let on : key_on lib num s ≡ some w =
        ap
          (λ o. o >>= λ (x : Leds).
            some (turn_circle (record s { flag = update num true s.flag; pin = true; leds = x })))
          found
        ∙ ap some ring in
      ap (λ o. o >>= λ (x : Sketch). some (show x)) (if_false _ _ dark ∙ on)

  abbrev pub off : Leds → Sketch
  off leds = record s {
    flag = update num false s.flag;
    pin = false;
    rm_times =
        if s.rm_status
        then update num ((s.rm_times num + s.rm_time) % 256) s.rm_times
        else s.rm_times;
    leds = leds;
  }

  pub run_key-off :
      (leds : Leds)
      → s.flag num ≡ true
      → s.rm_status ≡ false
      → dark_leds lib s num ≡ some leds
      → run_key lib num s ≡ some (show (off leds))
  unfolding run_key key_off
  run_key-off leds lit still found =
      let dark : key_off lib num s ≡ some (off leds) =
        ap
          (λ o.
            (if s.extend then spread (minus lib) s (num * 2) s.numofextend 0 o else some o)
            >>= λ (x : Leds). some (off x))
          (if_false _ _ still)
        ∙ ap (λ o. o >>= λ (x : Leds). some (off x)) found in
      ap (λ o. o >>= λ (x : Sketch). some (show x)) (if_true _ _ lit ∙ dark)

-- If FastLED's sums and differences of bytes saturate: a key from 2 to 87 that lies dark, struck twice, with all that it reaches in range, while neither
-- a rainbow nor the fading is on: every LED below the ring that has room for its share of the key's
-- colour is as it was, and the key lies dark.
pub key_on_off :
    {lib : FastLed} (laws : Saturates lib) (t : Sketch) (num fuel : ℕ)
    → 2 ≤ num
    → num ≤ 87
    → 2 ≤ fuel
    → t.flag num ≡ false
    → t.rbstatus ≡ false
    → t.rb_refresh ≡ false
    → t.rm_status ≡ false
    → IsInReach num t
    → (t' : Sketch) × (feed lib fuel t (bytes (num ∷ num ∷ [])) ≡ ready t')
      × (t'.flag num ≡ false)
      × ((j : ℕ) → j < 227 → HasRoom (share t num j) (t.leds j) → t'.leds j ≡ t.leds j)
key_on_off {lib} laws t num fuel lo hi enough dark e f g reach =
    let lit = lights (plus lib) t num (on_pair (λ c. plus lib c (key_color t)) num t.leds) reach in
    let on : Sketch = record t { flag = update num true t.flag; pin = true; leds = lit.0 } in
    let ring = turned on in
    let u : Sketch = show (record on { re = ring.0; circle = ring.1; leds = ring.2 }) in
    let left =
      lights (minus lib) u num (on_pair (λ c. minus lib c (key_color u)) num u.leds) reach in
    (
      show (off lib num u left.0),
      feed-Steps lib fuel enough (
          step num []
            (key-Obeys lib num t lo hi e f g (run_key_on lib num t lit.0 dark lit.1 ring.3))
            (step num []
              (key-Obeys lib num u lo hi e f g
                (run_key-off lib num u left.0 (ground arith) g left.1))
              (stop _))),
      ground arith,
      λ j below room.
          struck (minus lib) u num u.leds j lo left.1
          ∙ ap (touch (minus lib) (share t num j))
              (ring.4 j below ∙ struck (plus lib) t num t.leds j lo lit.1)
          ∙ minus-touch laws (share t num j) (t.leds j) room,
    )
