-- ===== src/System/Zero.antt =====
-- What a 0 among the arguments of a command does: the byte is not written, and the sketch waits.
use mathlib.Core.Path.{subst}
use effect_piano_light_contr.Base.{
  ap, ◌∙◌, ℕ, suc, ◌+◌, ◌≤◌, ◌≡◌, ◌⊎◌, refl, inl, inr, Bool-cases, true, List, [], ◌∷◌, ◌++◌,
  append_assoc, ◌==◌, arith,
}
use effect_piano_light_contr.Base.Int.{ℤ, pos, negsuc, low_byte, ◌≤ℤ◌, ◌-ℤ◌}
use effect_piano_light_contr.Host.Link.Fifo.{Holds, emits, send-Holds}
use effect_piano_light_contr.Host.Text.{Word, num, Lines, scan_int}
use effect_piano_light_contr.Host.State.{Host, write_set}
use effect_piano_light_contr.Host.Midi.{Message, is_heard, on_message}
use effect_piano_light_contr.Host.Console.{goes, top, clamp, extended, set_extend}
use effect_piano_light_contr.System.Play.{emits_key}
use effect_piano_light_contr.Sketch.Steps.{step, stop, feed-Steps}
use effect_piano_light_contr.Sketch.Obeys.{extend_on-Obeys}
use effect_piano_light_contr.Host.Palette.{Color}
use effect_piano_light_contr.Host.Lights.{rgb}
use effect_piano_light_contr.Sketch.State.{FastLed, Sketch}
use effect_piano_light_contr.Sketch.Serial.{bytes}
use effect_piano_light_contr.Sketch.Commands.{decode, run_change_color, run_extend_on}
use effect_piano_light_contr.Sketch.Loop.{run_command, feed, ready, inside}

-- A component whose byte is 0
abbrev pub HasZero : Color → Type 0
HasZero c = (low_byte c.r ≡ 0) ⊎ (low_byte c.g ≡ 0) ⊎ (low_byte c.b ≡ 0)

-- After all the bytes that the program writes for the command for a colour of which a component is 0
-- as a byte, the sketch stands inside the command, waiting for a component.
pub color_waits :
    (lib : FastLed) (t : Sketch) (c : Color) (fuel : ℕ)
    → HasZero c
    → feed lib (suc fuel) t (bytes (emits (pos 89 ∷ rgb c))) ≡ inside
unfolding feed run_command decode run_change_color
color_waits lib t c fuel h = elim (Bool-cases (low_byte c.r == 0)) [
  | inl er ↦ elim (Bool-cases (low_byte c.g == 0)) [
    | inl eg ↦ elim (Bool-cases (low_byte c.b == 0)) [
      | inl eb ↦ rw (er, eg, eb)
      | inr eb ↦ rw (er, eg, eb)
    ]
    | inr eg ↦ elim (Bool-cases (low_byte c.b == 0)) [
      | inl eb ↦ rw (er, eg, eb)
      | inr eb ↦ rw (er, eg, eb)
    ]
  ]
  | inr er ↦ elim (Bool-cases (low_byte c.g == 0)) [
    | inl eg ↦ elim (Bool-cases (low_byte c.b == 0)) [
      | inl eb ↦ rw (er, eg, eb)
      | inr eb ↦ rw (er, eg, eb)
    ]
    | inr eg ↦ elim (Bool-cases (low_byte c.b == 0)) [
      | inl eb ↦ rw (er, eg, eb)
      | inr eb ↦ absurd (ground arith)
    ]
  ]
]

clamp_low : (n : ℤ) → n ≤ℤ pos 0 → clamp (pos 10) n ≡ pos 0
clamp_low (pos n) low = ground arith
clamp_low (negsuc n) low = ground arith

-- The 0 is put into the queue behind the 96, and is not written.
extended-Holds :
    (h : Host) {w : List ℕ}
    → Holds h.link [] w
    → h.settings.on_extend ≡ true
    → Holds (extended (pos 0) h).link [] (w ++ 96 ∷ [])
unfolding extended write_set
extended-Holds h {w} held on = rw on (send-Holds (pos 96 ∷ pos 0 ∷ []) (omega arith) held)

num_extend-extended_zero :
    (h : Host) → (extended (pos 0) h).settings ≡ record (h.settings) { num_extend = pos 0 }
unfolding extended write_set
num_extend-extended_zero h = elim (Bool-cases h.settings.on_extend) [
  | inl e ↦ rw e refl
  | inr e ↦ rw e refl
]

note-Holds :
    (m : Message) (g : Host) (k : ℕ) {w : List ℕ}
    → Holds g.link [] w
    → is_heard g.settings m.status ≡ true
    → m.data1 ≡ k + 20
    → 1 ≤ k
    → k ≤ 87
    → Holds (on_message m g).link [] (w ++ k ∷ [])
unfolding on_message
note-Holds m g k {w} held heard at lo hi = rw heard (
    rw (← emits_key m.data1 k at lo hi)
      (send-Holds ((pos m.data1 -ℤ pos 20) ∷ []) (omega arith) held))

-- `set extend` with a number that is not above 0, with nothing waiting in the queue and the extension
-- on: the number in the settings is 0, and of the command only the 96 is written, so the sketch waits
-- inside it. The next key from 1 to 87 that is heard is written as its number, which the sketch then
-- takes for the number of LEDs, and lights up no key.
pub key_becomes_extend :
    (lib : FastLed) (n : ℤ) (ws : List Word) (ls : Lines) (m : Message) (k : ℕ) (h : Host)
    {w : List ℕ} (t : Sketch)
    → Holds h.link [] w
    → h.settings.on_extend ≡ true
    → n ≤ℤ pos 0
    → is_heard h.settings m.status ≡ true
    → m.data1 ≡ k + 20
    → 1 ≤ k
    → k ≤ 87
    → (g : Host) × (set_extend ((num n ∷ ws) ∷ ls) h ≡ goes top (ws ∷ ls) g)
      × (g.settings.num_extend ≡ pos 0)
      × Holds g.link [] (w ++ 96 ∷ [])
      × (feed lib 1 t (bytes (96 ∷ [])) ≡ inside)
      × Holds (on_message m g).link [] (w ++ 96 ∷ k ∷ [])
      × (feed lib 2 t (bytes (96 ∷ k ∷ [])) ≡ ready (record t { extend = true; numofextend = k }))
unfolding set_extend scan_int feed run_command decode run_extend_on is_heard
key_becomes_extend lib n ws ls m k h {w} t held on low heard at lo hi =
    let g = extended (pos 0) h in
    let waits = extended-Holds h held on in
    let same = num_extend-extended_zero h in
    (
      g,
      ap (λ e. goes top (ws ∷ ls) (extended e h)) (clamp_low n low),
      ap (λ s. s.num_extend) same,
      waits,
      refl,
      subst (Holds (on_message m g).link []) (append_assoc w (96 ∷ []) (k ∷ []))
          (note-Holds m g k waits (ap (λ s. is_heard s m.status) same ∙ heard) at lo hi),
      feed-Steps lib 2 (omega arith) (step 96 (k ∷ []) (extend_on-Obeys lib t k) (stop _)),
    )
