-- ===== src/Host/Lights/Effect.antt =====
-- `effect1` of Effect_Piano/Effect_Piano.cpp strikes every key twice.
use effect_piano_light_contr.Base.{
  ap, ℕ, zero, suc, ◌+◌, ◌-◌, ◌*◌, ◌<◌, ◌≤◌, ◌≡◌, ◌∙◌, ◌&&◌, List, [], ◌∷◌, ◌++◌, append-nil,
  length, length-append, refl, arith, ltb, leb, ◌==◌, if◌then◌else◌,
}
use effect_piano_light_contr.Base.Int.{ℤ, pos}
use effect_piano_light_contr.Host.Link.{Link}
use effect_piano_light_contr.Host.Link.Fifo.{Holds, emit, emits}
use effect_piano_light_contr.Host.State.{Host, send}
use effect_piano_light_contr.Host.Lights.{light_up, move_on, effect1}
use effect_piano_light_contr.Host.Lights.Wire.{Pushes, send-Pushes, Pushes-trans, emits-append}

-- How often a byte stands in a list.
abbrev pub tally : ℕ → List ℕ → ℕ
tally j [] = 0
tally j (k ∷ bs) = if k == j then suc (tally j bs) else tally j bs

tally-append : (j : ℕ) (xs ys : List ℕ) → tally j (xs ++ ys) ≡ tally j xs + tally j ys
tally-append j [] ys = omega arith
tally-append j (k ∷ xs) ys = ground (arith, tally-append j xs ys)

-- An int below 256 that is not 0 is a byte.
emit_small : (k : ℕ) → 1 ≤ k → k < 256 → emit (pos k) ≡ k ∷ []
emit_small k lo hi = ground arith

-- 1 for the `r` numbers from `i` on.
abbrev one_in : ℕ → ℕ → ℕ → ℕ
one_in i r j = if leb i j && ltb j (i + r) then 1 else 0

abbrev light_ints : ℕ → ℕ → List ℤ
light_ints zero i = []
light_ints (suc r) i = pos i ∷ light_ints r (i + 1)

abbrev move_ints : ℕ → ℕ → ℕ → List ℤ
move_ints n zero i = []
move_ints n (suc r) i = pos i ∷ pos (i - n) ∷ move_ints n r (i + 1)

light_ints_lem :
    (j r i : ℕ)
    → 1 ≤ i
    → i + r ≤ 256
    → (tally j (emits (light_ints r i)) ≡ one_in i r j) × (length (emits (light_ints r i)) ≡ r)
light_ints_lem j zero i lo hi = (ground arith, refl)
light_ints_lem j (suc r) i lo hi =
    let (count, size) = light_ints_lem j r (i + 1) (omega arith) (omega arith) in
    rw (emit_small i lo (omega arith)) (ground (arith, count), omega (arith, size))

move_ints_lem :
    (j n r i : ℕ)
    → n < i
    → i + r ≤ 256
    → (tally j (emits (move_ints n r i)) ≡ one_in i r j + one_in (i - n) r j)
      × (length (emits (move_ints n r i)) ≡ 2 * r)
move_ints_lem j n zero i lo hi = (ground arith, refl)
move_ints_lem j n (suc r) i lo hi =
    let (count, size) = move_ints_lem j n r (i + 1) (omega arith) (omega arith) in
    rw (emit_small i (omega arith) (omega arith), emit_small (i - n) (omega arith) (omega arith))
      (ground (arith, count), omega (arith, size))

nothing_pushed :
    {l : Link} (ps : List ℤ) (w : List ℕ)
    → length ps ≤ 0
    → Holds l ps w
    → Holds l [] (w ++ emits (ps ++ []))
nothing_pushed [] w few held = rw append-nil held
nothing_pushed (x ∷ ps) w few held = absurd (omega arith)

Pushes-refl : (l : Link) → Pushes 0 l l []
Pushes-refl l = record { carry = nothing_pushed }

light_up-Pushes : (r i : ℕ) (h : Host) → Pushes 0 h.link (light_up r i h).link (light_ints r i)
unfolding light_up
light_up-Pushes zero i h = Pushes-refl h.link
light_up-Pushes (suc r) i h =
    Pushes-trans (send-Pushes 0 (pos i ∷ []) h.link (omega arith)) (light_up-Pushes r (i + 1) _)

move_on-Pushes : (n r i : ℕ) (h : Host) → Pushes 0 h.link (move_on n r i h).link (move_ints n r i)
unfolding move_on
move_on-Pushes n zero i h = Pushes-refl h.link
move_on-Pushes n (suc r) i h =
    Pushes-trans (send-Pushes 0 (pos i ∷ pos (i - n) ∷ []) h.link (omega arith))
      (move_on-Pushes n r (i + 1) _)

abbrev pub effect1_ints : ℕ → List ℤ
effect1_ints n =
    (pos 90 ∷ [])
    ++ (light_ints n 1
        ++ (move_ints n (87 - n) (n + 1) ++ (light_ints n (88 - n) ++ (pos 91 ∷ pos 88 ∷ []))))

effect1-Pushes : (n : ℕ) (h : Host) → Pushes 0 h.link (effect1 n h).link (effect1_ints n)
unfolding effect1
effect1-Pushes n h =
    let begun = send (pos 90 ∷ []) h in
    let lit = light_up n 1 begun in
    let moved = move_on n (87 - n) (n + 1) lit in
    let gone = light_up n (88 - n) moved in
    Pushes-trans (send-Pushes 0 (pos 90 ∷ []) h.link (omega arith)) (
      Pushes-trans (light_up-Pushes n 1 begun) (
        Pushes-trans (move_on-Pushes n (87 - n) (n + 1) lit) (
          Pushes-trans (light_up-Pushes n (88 - n) moved) (
            Pushes-trans (send-Pushes 0 (pos 91 ∷ []) gone.link (omega arith))
              (send-Pushes 0 (pos 88 ∷ []) (send (pos 91 ∷ []) gone).link (omega arith))))))

-- The bytes of `effect1_ints`, part by part
parts :
    (n : ℕ)
    → emits (effect1_ints n)
      ≡ (90 ∷ [])
        ++ (emits (light_ints n 1)
            ++ (emits (move_ints n (87 - n) (n + 1))
                ++ (emits (light_ints n (88 - n)) ++ (91 ∷ 88 ∷ []))))
parts n =
    rw
      (
        emits-append (light_ints n 1)
            (move_ints n (87 - n) (n + 1) ++ (light_ints n (88 - n) ++ (pos 91 ∷ pos 88 ∷ []))),
        emits-append (move_ints n (87 - n) (n + 1))
            (light_ints n (88 - n) ++ (pos 91 ∷ pos 88 ∷ [])),
        emits-append (light_ints n (88 - n)) (pos 91 ∷ pos 88 ∷ []),
      )
      refl

effect1_tally : (n j : ℕ) → n ≤ 87 → 1 ≤ j → j ≤ 87 → tally j (emits (effect1_ints n)) ≡ 2
effect1_tally n j h lo hi =
    let begun = emits (light_ints n 1) in
    let moved = emits (move_ints n (87 - n) (n + 1)) in
    let gone = emits (light_ints n (88 - n)) in
    let last : tally j (gone ++ (91 ∷ 88 ∷ [])) ≡ one_in (88 - n) n j =
      tally-append j gone (91 ∷ 88 ∷ [])
      ∙ ground (arith, (light_ints_lem j n (88 - n) (omega arith) (omega arith)).0) in
    ap (tally j) (parts n)
    ∙ (ground (
      arith,
      last,
      tally-append j moved (gone ++ (91 ∷ 88 ∷ [])),
      tally-append j begun (moved ++ (gone ++ (91 ∷ 88 ∷ []))),
      (light_ints_lem j n 1 (omega arith) (omega arith)).0,
      (move_ints_lem j n (87 - n) (n + 1) (omega arith) (omega arith)).0,
    ))

effect1_size : (n : ℕ) → n ≤ 87 → length (emits (effect1_ints n)) ≡ 177
effect1_size n h =
    let begun = emits (light_ints n 1) in
    let moved = emits (move_ints n (87 - n) (n + 1)) in
    let gone = emits (light_ints n (88 - n)) in
    ap length (parts n)
    ∙ (omega (
      arith,
      length-append gone (91 ∷ 88 ∷ []),
      length-append moved (gone ++ (91 ∷ 88 ∷ [])),
      length-append begun (moved ++ (gone ++ (91 ∷ 88 ∷ []))),
      (light_ints_lem 0 n (88 - n) (omega arith) (omega arith)).1,
      (light_ints_lem 0 n 1 (omega arith) (omega arith)).1,
      (move_ints_lem 0 n (87 - n) (n + 1) (omega arith) (omega arith)).1,
    ))

-- With nothing waiting, `effect1 (n)` for n up to 87 writes 177 bytes among which every key from 1 to
-- 87 stands exactly twice, and then nothing waits.
pub effect1_twice :
    (n : ℕ) (h : Host) {w : List ℕ}
    → n ≤ 87
    → Holds h.link [] w
    → (out : List ℕ) × Holds (effect1 n h).link [] (w ++ out)
      × ((j : ℕ) → 1 ≤ j → j ≤ 87 → tally j out ≡ 2)
      × (length out ≡ 177)
effect1_twice n h {w} small held = (
  emits (effect1_ints n),
  (effect1-Pushes n h).carry [] w (omega arith) held,
  λ j lo hi. effect1_tally n j small lo hi,
  effect1_size n small,
)
