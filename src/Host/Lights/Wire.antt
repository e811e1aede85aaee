-- ===== src/Host/Lights/Wire.antt =====
-- The bytes that `start` and `effect1` put on the serial port.
use effect_piano_light_contr.Base.{
  ◌&&◌, sym, ℕ, ◌+◌, ◌≤◌, ◌≡◌, refl, Bool, Bool-cases, inl, inr, true, false, List, [], ◌∷◌, ◌++◌,
  append_assoc, length, length-append, arith, if◌then◌else◌,
}
use effect_piano_light_contr.Base.Int.{ℤ, pos, is_zero}
use effect_piano_light_contr.Host.Link
use effect_piano_light_contr.Host.Link.Fifo.{Holds, emit, emits, send-Holds, pta_all-Holds}
use effect_piano_light_contr.Host.Link.{Link}
use effect_piano_light_contr.Host.Settings.{Settings}
use effect_piano_light_contr.Host.Palette.{Palette, get_bg_color}
use effect_piano_light_contr.Host.State.{Host}
use effect_piano_light_contr.Host.Lights.{
  rgb, mix, refresh_or_off, refresh_bg, start_color, start_background, start_switches, start,
}

pub emits-append : (xs ys : List ℤ) → emits (xs ++ ys) ≡ emits xs ++ emits ys
emits-append [] ys = refl
emits-append (x ∷ xs) ys =
    rw (emits-append xs ys) (sym (append_assoc (emit x) (emits xs) (emits ys)))

-- From the queue `l` to `l'` the ints `xs` go out behind what waited, which is at most `k` ints.
pub record Pushes (k : ℕ) (l l' : Link) (xs : List ℤ) : Type 0 where
  pub carry :
      (ps : List ℤ) (w : List ℕ)
      → length ps ≤ k
      → Holds l ps w
      → Holds l' [] (w ++ emits (ps ++ xs))

pub send-Pushes :
    (k : ℕ) (xs : List ℤ) (l : Link) → k + length xs ≤ 199 → Pushes k l (Link.send xs l) xs
send-Pushes k xs l room = record { carry = λ ps w few held. send-Holds xs (omega arith) held }

pub Pushes-trans :
    {k : ℕ} {l m n : Link} {xs ys : List ℤ}
    → Pushes k l m xs
    → Pushes 0 m n ys
    → Pushes k l n (xs ++ ys)
Pushes-trans {xs = xs} {ys = ys} p q = record {
  carry = λ ps w few held.
      rw
        (
          ← append_assoc ps xs ys,
          emits-append (ps ++ xs) ys,
          ← append_assoc w (emits (ps ++ xs)) (emits ys),
        )
        (q.carry [] (w ++ emits (ps ++ xs)) (omega arith) (p.carry ps w few held));
}

pub Pushes-fewer : {j k : ℕ} {l m : Link} {xs : List ℤ} → j ≤ k → Pushes k l m xs → Pushes j l m xs
Pushes-fewer less p = record { carry = λ ps w few held. p.carry ps w (omega arith) held }

-- What waits goes out with the next `push`.
pub pta_all-Pushes :
    {k : ℕ} (m : ℕ) {l n : Link} (xs : List ℤ) {ys : List ℤ}
    → k + length xs ≤ m
    → m ≤ 199
    → Pushes m (Link.pta_all xs l) n ys
    → Pushes k l n (xs ++ ys)
pta_all-Pushes m xs {ys} room small q = record {
  carry = λ ps w few held. rw (← append_assoc ps xs ys) (
      q.carry (ps ++ xs) w (omega (arith, length-append ps xs))
        (pta_all-Holds xs (omega arith) held));
}

-- The ints of `refresh_bg`.
abbrev pub background_ints : Palette → List ℤ
background_ints p = pos 103 ∷ pos 102 ∷ rgb p.color_bg_real ++ pos 89 ∷ rgb p.color_plus

pub refresh_bg-Pushes :
    (k : ℕ) (h : Host) → k ≤ 190 → Pushes k h.link (refresh_bg h).link (background_ints h.palette)
unfolding refresh_bg
refresh_bg-Pushes k h few =
    Pushes-trans (send-Pushes k _ _ (omega arith)) (send-Pushes 0 _ _ (omega arith))

-- The ints of the middle part of `start`: the background, or that it is off.
abbrev pub start_background_ints : Settings → Palette → List ℤ
start_background_ints s p =
    let (done, s', p') = get_bg_color s.color_default s.color_background_default (s, p) in
    if done && s'.on_background then background_ints p' else pos 103 ∷ []

refresh_or_off-Pushes :
    (k : ℕ) (done on : Bool) (h : Host)
    → k ≤ 190
    → Pushes k h.link
        (refresh_or_off done on h).link
        (if done && on then background_ints h.palette else pos 103 ∷ [])
unfolding refresh_or_off
refresh_or_off-Pushes k true true h few = refresh_bg-Pushes k h few
refresh_or_off-Pushes k true false h few = send-Pushes k _ _ (omega arith)
refresh_or_off-Pushes k false on h few = send-Pushes k _ _ (omega arith)

start_background-Pushes :
    (k : ℕ) (h : Host)
    → k ≤ 190
    → Pushes k h.link (start_background h).link (start_background_ints h.settings h.palette)
unfolding start_background mix
start_background-Pushes k h few =
    let (done, s, p) =
      get_bg_color h.settings.color_default h.settings.color_background_default
        (h.settings, h.palette) in
    refresh_or_off-Pushes k done s.on_background (record h { settings = s; palette = p }) few

-- The ints of the switches.
abbrev pub start_switches_ints : Settings → List ℤ
start_switches_ints s =
    (if s.on_circle then pos 91 ∷ [] else pos 90 ∷ [])
    ++ (if s.on_ends then pos 92 ∷ [] else pos 97 ∷ [])
    ++ (if s.on_remain then pos 98 ∷ s.num_remain ∷ [] else pos 99 ∷ [])
    ++ (if s.on_extend then pos 96 ∷ s.num_extend ∷ [] else pos 101 ∷ [])
    ++ (pos 93 ∷ s.brightness ∷ [])

length_if :
    (b : Bool) (xs ys : List ℤ) → length xs ≤ 2 → length ys ≤ 2 → length (if b then xs else ys) ≤ 2
length_if true xs ys h k = h
length_if false xs ys h k = k

start_switches-Pushes :
    (h : Host) → Pushes 0 h.link (start_switches h).link (start_switches_ints h.settings)
unfolding start_switches
start_switches-Pushes h =
    Pushes-trans
      (Pushes-trans
        (Pushes-trans
          (Pushes-trans (send-Pushes 0 _ _ (omega (arith, length_if)))
            (send-Pushes 0 _ _ (omega (arith, length_if))))
          (send-Pushes 0 _ _ (omega (arith, length_if))))
        (send-Pushes 0 _ _ (omega (arith, length_if))))
      (send-Pushes 0 _ _ (omega (arith, length_if)))

-- What `start` sends, from the settings and the colours.
abbrev pub start_ints : Settings → Palette → List ℤ
start_ints s p =
    (pos 0 ∷ pos 127 ∷ [])
    ++ ((pos 127 ∷ [])
        ++ ((pos 89 ∷ rgb (p.color s.color_default))
            ++ (start_background_ints s p ++ start_switches_ints s)))

settings-refresh_or_off :
    (done on : Bool) (h : Host) → (refresh_or_off done on h).settings ≡ h.settings
unfolding refresh_or_off refresh_bg
settings-refresh_or_off true true h = refl
settings-refresh_or_off true false h = refl
settings-refresh_or_off false on h = refl

switches-get_bg_color :
    (fg bg : ℤ) (s : Settings) (p : Palette)
    → start_switches_ints (get_bg_color fg bg (s, p)).1 ≡ start_switches_ints s
unfolding get_bg_color
switches-get_bg_color fg bg s p = elim (Bool-cases (is_zero s.bright_background)) [
  | inl e ↦ rw e
  | inr e ↦ rw e
]

-- The middle part changes no switch that is sent after it.
switches-background :
    (h : Host) → start_switches_ints (start_background h).settings ≡ start_switches_ints h.settings
unfolding start_background mix
switches-background h =
    rw (settings-refresh_or_off) (switches-get_bg_color _ _ h.settings h.palette)

start_switches_color :
    (h : Host) → start_switches_ints (start_color h).settings ≡ start_switches_ints h.settings
unfolding start_color
start_switches_color h = refl

start_background_color :
    (h : Host)
    → Pushes 100
        (start_color h).link
        (start_background (start_color h)).link
        (start_background_ints h.settings h.palette)
unfolding start_color
start_background_color h = start_background-Pushes 100 (start_color h) (omega arith)

-- The first part of `start`: what it pushes goes out, and the colour goes out with the next push.
start_color-Pushes :
    (h : Host) {n : Link} {ys : List ℤ}
    → Pushes 100 (start_color h).link n ys
    → Pushes 100 h.link n (
        (pos 0 ∷ pos 127 ∷ [])
        ++ ((pos 127 ∷ []) ++ (pos 89 ∷ rgb (h.palette.color h.settings.color_default)) ++ ys))
unfolding start_color
start_color-Pushes h {n} {ys} next =
    Pushes-trans (send-Pushes 100 (pos 0 ∷ pos 127 ∷ []) h.link (omega arith)) (
      Pushes-trans (send-Pushes 0 (pos 127 ∷ []) _ (omega arith)) (
        pta_all-Pushes 100 (pos 89 ∷ rgb (h.palette.color h.settings.color_default)) (omega arith)
          (omega arith) next))

-- `start` pushes those ints behind what waited, which is at most 100 ints, and then nothing waits.
pub start-Pushes : (h : Host) → Pushes 100 h.link (start h).link (start_ints h.settings h.palette)
unfolding start
start-Pushes h = start_color-Pushes h (
    Pushes-trans (start_background_color h) (
      rw (← start_switches_color h, ← switches-background (start_color h))
        (start_switches-Pushes (start_background (start_color h)))))
