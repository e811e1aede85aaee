-- ===== src/Host/Link/Fifo.antt =====
-- The ring behind `pta` and `push` is a FIFO of at most 199 ints.
use effect_piano_light_contr.Base.{
  sym, Bool-cases, inl, inr, ==_iff, ℕ, zero, suc, ◌+◌, ◌-◌, ◌%◌, ◌≤◌, ◌<◌, ◌≡◌, ◌≢◌, refl, ap, ap₂,
  ◌∙◌, List, [], ◌∷◌, ◌++◌, append_assoc, append-nil, length, length-append, length-set, set,
  get_or, get_or-set_self, get_or-set_ne, ◌==◌, if◌then◌else◌, arith,
}
use effect_piano_light_contr.Base.Int.{ℤ, pos, low_byte}
use effect_piano_light_contr.Host.Link.{
  Link, lodata, advance, pta, c_string, write_next, push_rounds, push, pta_all, send,
}

-- The `n` ints that stand behind index `i`, going round at LODATA.
abbrev pub window : List ℤ → ℕ → ℕ → List ℤ
window buf i zero = []
window buf i (suc n) = get_or buf (advance i) (pos 0) ∷ window buf (advance i) n

-- How many ints wait, for indices in range.
abbrev pub count : Link → ℕ
count l = (l.cl + lodata - l.op) % lodata

-- The ints that wait, oldest first.
abbrev pub pending : Link → List ℤ
pending l = window l.buf l.op (count l)

-- The bytes that an int puts on the port.
abbrev pub emit : ℤ → List ℕ
emit a = if low_byte a == 0 then [] else low_byte a ∷ []

abbrev pub emits : List ℤ → List ℕ
emits [] = []
emits (a ∷ xs) = emit a ++ emits xs

-- Nothing is indexed out of range, and what stands behind `commu` ends the string.
pub record IsValid (l : Link) : Type 0 where
  pub op_in : l.op < lodata
  pub cl_in : l.cl < lodata
  pub size : length l.buf ≡ lodata
  pub ended : get_or l.behind 0 1 ≡ 0

-- The queue `l` is in order, holds the ints `ps` and has put the bytes `w` on the port.
pub record Holds (l : Link) (ps : List ℤ) (w : List ℕ) : Type 0 where
  pub valid : IsValid l
  pub waits : pending l ≡ ps
  pub wrote : l.wire ≡ w

advance-lt : (i : ℕ) → i < lodata → advance i < lodata
advance-lt i h = ground arith

pub length-window : (buf : List ℤ) (i n : ℕ) → length (window buf i n) ≡ n
length-window buf i zero = refl
length-window buf i (suc n) = ap suc (length-window buf (advance i) n)

-- Writing just past a window extends it by that int.
window-set :
    (buf : List ℤ) (a : ℤ) (n op i : ℕ)
    → length buf ≡ lodata
    → op < lodata
    → n < lodata
    → i ≡ (op + n + 1) % lodata
    → window (set buf i a) op (suc n) ≡ window buf op n ++ (a ∷ [])
window-set buf a zero op i hb ho hn e = ground (arith, get_or-set_self buf i a (pos 0))
window-set buf a (suc n) op i hb ho hn e =
    ap₂ ◌∷◌ (get_or-set_ne buf a (pos 0) (ground arith))
      (window-set buf a n (advance op) i hb (advance-lt op ho) (omega arith) (ground arith))

-- `pta` keeps the ring in order.
pub pta-IsValid : {l : Link} (a : ℤ) → IsValid l → IsValid (pta a l)
unfolding pta
pta-IsValid {l} a v = ground (arith, length-set l.buf (advance l.cl) a)

count-pta : (a : ℤ) (l : Link) → IsValid l → count l < 199 → count (pta a l) ≡ suc (count l)
unfolding pta
count-pta a l v h = ground arith

-- `pta` appends its int behind those that wait, if fewer than 199 do, and writes nothing.
pub pta-Holds :
    {l : Link} {ps : List ℤ} {w : List ℕ} (a : ℤ)
    → length ps < 199
    → Holds l ps w
    → Holds (pta a l) (ps ++ a ∷ []) w
unfolding pta
pta-Holds {l} {ps} {w} a h k = record {
  valid = pta-IsValid a k.valid;
  waits =
      ap (window (pta a l).buf l.op) (count-pta a l (k.valid) room)
      ∙ window-set l.buf a (count l) l.op (advance l.cl) k.valid.size k.valid.op_in (omega arith)
          (omega (arith, index))
      ∙ ap (λ xs. xs ++ a ∷ []) k.waits;
  wrote = k.wrote;
}
  where
    room : count l < 199
    room = omega (arith, length-window l.buf l.op (count l), ap length k.waits)

    index : advance l.cl ≡ (l.op + count l + 1) % lodata
    index = ground arith

-- What stands behind `commu` ends the string, so one byte is written, or none if it is 0.
c_string-emit :
    (a : ℤ) (behind : List ℕ) → get_or behind 0 1 ≡ 0 → c_string (low_byte a ∷ behind) ≡ emit a
unfolding c_string
c_string-emit a [] h = absurd (omega arith)
c_string-emit a (b ∷ bs) h = ground arith

count-Holds : {l : Link} {ps : List ℤ} {w : List ℕ} → Holds l ps w → count l ≡ length ps
count-Holds {l} k = sym (length-window l.buf l.op (count l)) ∙ ap length k.waits

front :
    {l : Link} {a : ℤ} {ps : List ℤ} {w : List ℕ}
    → Holds l (a ∷ ps) w
    → window l.buf l.op (suc (length ps)) ≡ a ∷ ps
front {l} k = ap (window l.buf l.op) (sym (count-Holds k)) ∙ k.waits

-- One round of `push` takes the oldest int and puts its byte on the port.
write_next-Holds :
    {l : Link} {a : ℤ} {ps : List ℤ} {w : List ℕ}
    → Holds l (a ∷ ps) w
    → Holds (write_next l) ps (w ++ emit a)
unfolding write_next
write_next-Holds {l} {a} {ps} {w} k = record {
  valid = ground (arith, k.valid);
  waits = ap (window l.buf (advance l.op)) fewer ∙ cc (front k);
  wrote = cc (c_string-emit (get_or l.buf (advance l.op) (pos 0)) l.behind k.valid.ended, front k);
}
  where
    fewer : count (write_next l) ≡ length ps
    fewer = ground (arith, count-Holds k)

not_idle : {l : Link} {a : ℤ} {ps : List ℤ} {w : List ℕ} → Holds l (a ∷ ps) w → l.op ≢ l.cl
not_idle {l} {a} {ps} k e = omega (arith, count-Holds k)

idle : {l : Link} {w : List ℕ} → Holds l [] w → l.op ≡ l.cl
idle {l} {w} k = omega (arith, count-Holds k)

push_rounds-Holds :
    (ps : List ℤ) (fuel : ℕ) {l : Link} {w : List ℕ}
    → length ps ≤ fuel
    → Holds l ps w
    → Holds (push_rounds fuel l) [] (w ++ emits ps)
unfolding push_rounds
push_rounds-Holds [] zero {l} {w} h k = rw (append-nil) k
push_rounds-Holds [] (suc n) {l} {w} h k = rw (append-nil, (==_iff l.op l.cl).1 (idle k)) k
push_rounds-Holds (a ∷ ps) zero {l} {w} h k = absurd (omega arith)
push_rounds-Holds (a ∷ ps) (suc n) {l} {w} h k = elim (Bool-cases (l.op == l.cl)) [
  | inl e ↦ absurd (not_idle k ((==_iff l.op l.cl).0 e))
  | inr e ↦ rw (e, ← append_assoc) (push_rounds-Holds ps n (omega arith) (write_next-Holds k))
]

-- From a queue in order, with a 0 in the byte behind `commu`: `push` writes the byte of every int that
-- waits, in order, and none for an int whose byte is 0; then `op == cl`, so it has returned, and nothing
-- waits.
pub push_lem :
    {l : Link} {ps : List ℤ} {w : List ℕ}
    → Holds l ps w
    → Holds (push l) [] (w ++ emits ps) × ((push l).op ≡ (push l).cl)
unfolding push
push_lem {l} {ps} {w} k = (done, idle done)
  where
    done : Holds (push_rounds lodata l) [] (w ++ emits ps)
    done = push_rounds-Holds ps lodata (omega (arith, count-Holds k)) k

-- `pta` on each int of a list appends the list, if there is room.
pub pta_all-Holds :
    (xs : List ℤ) {l : Link} {ps : List ℤ} {w : List ℕ}
    → length ps + length xs ≤ 199
    → Holds l ps w
    → Holds (pta_all xs l) (ps ++ xs) w
unfolding pta_all
pta_all-Holds [] h k = rw append-nil k
pta_all-Holds (x ∷ xs) {l} {ps} h k =
    rw (← append_assoc ps (x ∷ []) xs)
      (pta_all-Holds xs (omega (arith, length-append ps (x ∷ []))) (pta-Holds x (omega arith) k))

-- A handler's calls of `pta` with a `push` behind them: the bytes of what waited and of the
-- handler's own ints go out, and nothing waits.
pub send-Holds :
    (xs : List ℤ) {l : Link} {ps : List ℤ} {w : List ℕ}
    → length ps + length xs ≤ 199
    → Holds l ps w
    → Holds (send xs l) [] (w ++ emits (ps ++ xs))
unfolding send
send-Holds xs h k = (push_lem (pta_all-Holds xs h k)).0

write_next-IsValid : {l : Link} → IsValid l → IsValid (write_next l)
unfolding write_next
write_next-IsValid v = ground arith

push_rounds-IsValid : (n : ℕ) {l : Link} → IsValid l → IsValid (push_rounds n l)
unfolding push_rounds
push_rounds-IsValid zero v = v
push_rounds-IsValid (suc n) {l} v = elim (Bool-cases (l.op == l.cl)) [
  | inl e ↦ rw e v
  | inr e ↦ rw e (push_rounds-IsValid n (write_next-IsValid v))
]

pub pta_all-IsValid : (xs : List ℤ) {l : Link} → IsValid l → IsValid (pta_all xs l)
unfolding pta_all
pta_all-IsValid [] v = v
pta_all-IsValid (x ∷ xs) v = pta_all-IsValid xs (pta-IsValid x v)

-- No sequence of calls of `pta` with a `push` behind it brings the queue out of order.
pub send-IsValid : (xs : List ℤ) {l : Link} → IsValid l → IsValid (send xs l)
unfolding send push
send-IsValid xs v = push_rounds-IsValid lodata (pta_all-IsValid xs v)
