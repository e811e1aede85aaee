-- ===== src/System/Rainbow.antt =====
-- What Effect_Piano/Effect_Piano.cpp does for `M` while it is held down and when it is let go: what is
-- left in the queue, and in the sketch of Effect_Piano_v1.3.0.ino.
use mathlib.Core.Path.{subst}
use effect_piano_light_contr.Base.{
  ap, sym, ℕ, zero, suc, ◌≤◌, ◌≡◌, refl, Bool, true, false, List, [], ◌∷◌, ◌++◌, append_assoc,
  append-nil, length, if◌then◌else◌, arith, replicate,
}
use effect_piano_light_contr.Base.Int.{ℤ, pos, low_byte}
use effect_piano_light_contr.Host.Link.Fifo.{Holds, emits, pta_all-Holds, send-Holds}
use effect_piano_light_contr.Host.Settings.{Settings}
use effect_piano_light_contr.Host.State.{Host, send, pta_all}
use effect_piano_light_contr.Host.Lights.Wire.{Pushes-trans, send-Pushes, pta_all-Pushes}
use effect_piano_light_contr.Host.Keys.{rainbow_key, rainbow_start, set_rainbow}
use effect_piano_light_contr.Sketch.State.{FastLed, Sketch}
use effect_piano_light_contr.Sketch.Serial.{bytes}
use effect_piano_light_contr.Sketch.Loop.{feed, ready}
use effect_piano_light_contr.Sketch.Steps.{feed-Steps}
use effect_piano_light_contr.Sketch.Config.{config}
use effect_piano_light_contr.System.{IsSent}
use effect_piano_light_contr.System.Shows.{tail, emits_joined, all_shown}

-- The code for `M` while it is down, as often as there are rounds
abbrev pub hold : ℕ → Host → Host
hold zero h = h
hold (suc n) h = hold n (rainbow_key true h)

-- The rainbow is on, nothing waits, and the settings are `s`.
record IsHeld (h : Host) (w : List ℕ) (s : Settings) : Type 0 where
  holds : Holds h.link [] w
  on : h.panel.on_rainbow ≡ true
  unchanged : h.settings ≡ s

held_down : (h : Host) → h.panel.on_rainbow ≡ true → rainbow_key true h ≡ send (pos 94 ∷ []) h
unfolding rainbow_key
held_down h e = ap (λ b. if b then send (pos 94 ∷ []) h else set_rainbow true (rainbow_start h)) e

first_down :
    (h : Host)
    → h.panel.on_rainbow ≡ false
    → rainbow_key true h ≡ set_rainbow true (rainbow_start h)
unfolding rainbow_key
first_down h e = ap (λ b. if b then send (pos 94 ∷ []) h else set_rainbow true (rainbow_start h)) e

hold-IsHeld :
    (n : ℕ) (h : Host) {w : List ℕ} {s : Settings}
    → IsHeld h w s
    → IsHeld (hold n h) (w ++ emits (replicate n (pos 94))) s
hold-IsHeld zero h {w} v = rw append-nil v
hold-IsHeld (suc n) h {w} {s} v =
    subst (λ g. IsHeld (hold n g) (w ++ emits (replicate (suc n) (pos 94))) s)
      (sym (held_down h v.on))
      (rw (← append_assoc w (94 ∷ []) (emits (replicate n (pos 94)))) (
        hold-IsHeld n (send (pos 94 ∷ []) h) {w = w ++ 94 ∷ []} (record {
          holds = send-Holds (pos 94 ∷ []) (omega arith) v.holds;
          on = v.on;
          unchanged = v.unchanged;
        })))

-- The code for `M` when it comes down, and `n` times more while it is down
start-IsHeld :
    (n : ℕ) (h : Host) {w : List ℕ}
    → Holds h.link [] w
    → h.panel.on_rainbow ≡ false
    → IsHeld
        (hold (suc n) h)
        ((w ++ emits (pos 93 ∷ pos 20 ∷ pos 90 ∷ pos 94 ∷ [])) ++ emits (replicate n (pos 94)))
        h.settings
start-IsHeld n h {w} held e =
    subst
      (λ g.
        IsHeld (hold n g)
          ((w ++ emits (pos 93 ∷ pos 20 ∷ pos 90 ∷ pos 94 ∷ [])) ++ emits (replicate n (pos 94)))
          h.settings)
      (sym (first_down h e))
      (hold-IsHeld n (set_rainbow true (rainbow_start h)) (record {
        holds =
            (Pushes-trans (send-Pushes 0 (pos 93 ∷ pos 20 ∷ []) h.link (omega arith)) (
                Pushes-trans (send-Pushes 0 (pos 90 ∷ []) _ (omega arith))
                  (send-Pushes 0 (pos 94 ∷ []) _ (omega arith)))).carry
              [] w (omega arith) held;
        on = refl;
        unchanged = refl;
      }))

-- `M` let go, in the two cases of `on_circle`
let_go :
    (h : Host)
    → h.panel.on_rainbow ≡ true
    → rainbow_key false h ≡ (
        let off =
          set_rainbow false
            (pta_all (pos 93 ∷ h.settings.brightness ∷ []) (send (pos 95 ∷ []) h)) in
        if h.settings.on_circle then send (pos 91 ∷ []) off else off)
unfolding rainbow_key
let_go h e =
    ap
      (λ b.
        if b
        then (let off =
              set_rainbow false
                (pta_all (pos 93 ∷ h.settings.brightness ∷ []) (send (pos 95 ∷ []) h)) in
            if h.settings.on_circle then send (pos 91 ∷ []) off else off)
        else h)
      e

-- What stays in the queue when `M` is let go
abbrev pub left_over : Bool → ℤ → List ℤ
left_over circle b = if circle then [] else pos 93 ∷ b ∷ []

record IsOver (circle : Bool) (s : Settings) (w : List ℕ) (h : Host) : Type 0 where
  holds :
      Holds h.link (left_over circle s.brightness) (w ++ emits (pos 95 ∷ tail circle s.brightness))
  off : h.panel.on_rainbow ≡ false
  unchanged : h.settings ≡ s

abbrev off_rainbow : Host → Host
off_rainbow h =
    set_rainbow false (pta_all (pos 93 ∷ h.settings.brightness ∷ []) (send (pos 95 ∷ []) h))

over :
    (circle : Bool) (h : Host) {w : List ℕ}
    → Holds h.link [] w
    → IsOver circle h.settings w
        (if circle then send (pos 91 ∷ []) (off_rainbow h) else off_rainbow h)
over true h {w} held = record {
  holds =
      (Pushes-trans (send-Pushes 0 (pos 95 ∷ []) h.link (omega arith)) (
          pta_all-Pushes 2 (pos 93 ∷ h.settings.brightness ∷ []) (omega arith) (omega arith)
            (send-Pushes 2 (pos 91 ∷ []) _ (omega arith)))).carry
        [] w (omega arith) held;
  off = refl;
  unchanged = refl;
}
over false h {w} held = record {
  holds =
      pta_all-Holds (pos 93 ∷ h.settings.brightness ∷ []) (omega arith)
        (send-Holds (pos 95 ∷ []) (omega arith) held);
  off = refl;
  unchanged = refl;
}

gone :
    (h : Host) {w : List ℕ} {s : Settings}
    → IsHeld h w s
    → IsOver s.on_circle s w (rainbow_key false h)
gone h {w} v =
    subst (λ s. IsOver s.on_circle s w (rainbow_key false h)) v.unchanged
      (subst (IsOver h.settings.on_circle h.settings w) (sym (let_go h v.on))
        (over h.settings.on_circle h v.holds))

-- The code for `M`, run `n + 1` times with the key down and then once with the key up, and nothing of the
-- rounds between, from a state with nothing waiting in the queue and no rainbow on, while the brightness,
-- if the ring is on, is not 0 as a byte: right behind this, the settings are as they were, no
-- rainbow is on in the program or in the sketch, and the sketch is in front of `loop ()` with the ring
-- as the settings say. With the ring on it has the brightness of the settings, and nothing waits; with
-- the ring off it has the brightness 20 of the rainbow, and the command for the brightness waits.
pub rainbow_over :
    (lib : FastLed) (n : ℕ) (h : Host) {w : List ℕ} (t : Sketch)
    → Holds h.link [] w
    → h.panel.on_rainbow ≡ false
    → (h.settings.on_circle ≡ true → IsSent h.settings.brightness)
    → ((rainbow_key false (hold (suc n) h)).settings ≡ h.settings)
      × ((rainbow_key false (hold (suc n) h)).panel.on_rainbow ≡ false)
      × ((out : List ℕ) × (u : Sketch) × Holds
            (rainbow_key false (hold (suc n) h)).link
            (left_over h.settings.on_circle h.settings.brightness)
            (w ++ out)
          × ((fuel : ℕ) → length out ≤ fuel → feed lib fuel t (bytes out) ≡ ready u)
          × (u.rbstatus ≡ false)
          × (config u ≡ record (config t) {
            brightness = if h.settings.on_circle then low_byte h.settings.brightness else 20;
            circle_on = h.settings.on_circle;
          }))
rainbow_over lib n h {w} t held e sent =
    let g = gone (hold (suc n) h) (start-IsHeld n h held e) in
    let u = all_shown lib h.settings.on_circle h.settings.brightness n t sent in
    (
      g.unchanged,
      g.off,
      (
        emits (
            (pos 93 ∷ pos 20 ∷ pos 90 ∷ pos 94 ∷ [])
            ++ (replicate n (pos 94) ++ pos 95 ∷ tail h.settings.on_circle h.settings.brightness)),
        u.after,
        subst
            (Holds (rainbow_key false (hold (suc n) h)).link
              (left_over h.settings.on_circle h.settings.brightness))
            (emits_joined w (pos 93 ∷ pos 20 ∷ pos 90 ∷ pos 94 ∷ []) (replicate n (pos 94))
              (pos 95 ∷ tail h.settings.on_circle h.settings.brightness))
            g.holds,
        λ fuel enough. feed-Steps lib fuel enough u.steps,
        u.turned,
        u.set,
      ),
    )
