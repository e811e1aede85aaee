-- ===== src/Host/Link.antt =====
-- The outgoing queue of Effect_Piano/Effect_Piano.cpp: `pta` appends an int to the ring
-- `data[LODATA]`, `push` writes what is pending to the serial port, one byte at a time.
pub mod Fifo
use effect_piano_light_contr.Base.{
  ℕ, zero, suc, ◌+◌, ◌-◌, ◌≤◌, ◌<◌, ◌≡◌, Bool, List, [], ◌∷◌, ◌++◌, length, set, get_or, ◌==◌, leb,
  if◌then◌else◌,
}
use effect_piano_light_contr.Base.Int.{ℤ, pos, low_byte}

-- LODATA
abbrev pub lodata : ℕ
lodata = 200

-- The globals `op`, `cl` and `data`, the bytes that stand in memory behind `commu[1]`, and the
-- bytes that `WriteFile` has put on the port so far, oldest first.
pub record Link : Type 0 where
  pub op : ℕ
  pub cl : ℕ
  pub buf : List ℤ
  pub behind : List ℕ
  pub wire : List ℕ

-- The index after `i`, which starts over at LODATA.
abbrev pub advance : ℕ → ℕ
advance i = if leb lodata (i + 1) then i + 1 - lodata else i + 1

unfoldable pub pta : ℤ → Link → Link
pta a l = record l { cl = advance l.cl; buf = set l.buf (advance l.cl) a }

-- The bytes before the first 0: what `WriteFile (commu, strlen (commu))` writes, if `commu` and
-- what stands behind it hold these bytes.
unfoldable pub c_string : List ℕ → List ℕ
c_string [] = []
c_string (c ∷ cs) = if c == 0 then [] else c ∷ c_string cs

-- One round of `push`: the next int goes to the port.
unfoldable pub write_next : Link → Link
unfolding c_string
write_next l = record l {
  op = advance l.op;
  wire = l.wire ++ c_string (low_byte (get_or l.buf (advance l.op) (pos 0)) ∷ l.behind);
}

-- `push` calls itself until `op == cl`.
pub push_rounds : ℕ → Link → Link
push_rounds zero l = l
push_rounds (suc fuel) l =
    let rest = push_rounds fuel (write_next l) in if l.op == l.cl then l else rest

-- LODATA rounds are enough: `Fifo.push_lem`.
unfoldable pub push : Link → Link
unfolding push_rounds write_next
push l = push_rounds lodata l

-- `pta (x);` for each x, in order
unfoldable pub pta_all : List ℤ → Link → Link
unfolding pta
pta_all [] l = l
pta_all (x ∷ xs) l = pta_all xs (pta x l)

-- `pta (x₁); … pta (xₙ); push ();`
unfoldable pub send : List ℤ → Link → Link
unfolding pta_all push
send xs l = push (pta_all xs l)
