-- ===== src/Host/Settings/File.antt =====
-- What `read_set` makes of a file that `print_set` has printed.
use Prim.Native.String.{String}
use mathlib.Core.Path.{subst}
use effect_piano_light_contr.Base.{
  ◌∙◌, ◌⊎◌, inl, inr, ℕ, zero, suc, ◌+◌, ◌≤◌, ◌≡◌, refl, ap, Bool, true, false, List, [], ◌∷◌, ◌++◌,
  map, Option, none, some, length, set, length-set, take, arith, lt→ltb,
}
use effect_piano_light_contr.Base.Int.{ℤ, pos, negsuc, ◌+ℤ◌, ◌-ℤ◌, pos_part}
use effect_piano_light_contr.Host.Text.{Word, num, text, Lines, Reader, ◌>>=◌, read_elems}
use effect_piano_light_contr.Host.Settings.{
  Settings, to_bool, of_bool, read_using, read_set, read_switches, read_serial, read_used,
  read_ignored, read_lights, word_of, print_lights, print_head, print_rest, print_set,
}

-- The file that `read_set` expects: one line more, in front of `serial_name=`.
abbrev pub layout : List Word → Settings → Lines
layout line s = print_head s ++ line ∷ print_rest s

-- `ys` with the channels `xs` written from index `i` on.
abbrev pub overlay : ℕ → List ℤ → List ℤ → List ℤ
overlay i [] ys = ys
overlay i (x ∷ xs) ys = overlay (i + 1) xs (set ys i x)

>>=-some :
    {A B : Type 0} (m : Reader A) (f : A → Reader B) {ls rest : Lines} {a : A}
    → m ls ≡ some (a, rest)
    → (m >>= f) ls ≡ f a rest
>>=-some m f h = rw (h, ◌>>=◌)

length-take : {A : Type 0} (n : ℕ) (xs : List A) → n ≤ length xs → length (take n xs) ≡ n
length-take zero xs h = refl
length-take (suc n) [] h = absurd (omega arith)
length-take (suc n) (x ∷ xs) h = ap suc (length-take n xs (omega arith))

read_elems-nums :
    (xs : List ℤ) (i : ℕ) (ys : List ℤ) (ls : Lines)
    → i + length xs ≤ length ys
    → read_elems (length xs) i ys (map num xs ∷ ls) ≡ some (overlay i xs ys, [] ∷ ls)
unfolding read_elems
read_elems-nums [] i ys ls h = refl
read_elems-nums (x ∷ xs) i ys ls h =
    rw (lt→ltb i (length ys) (omega arith), ◌>>=◌)
      (read_elems-nums xs (i + 1) (set ys i x) ls (omega (arith, length-set ys i x)))

-- The loop reads back the channels that were printed.
read_elems-take :
    (n : ℕ) (xs ys : List ℤ) (ls : Lines)
    → n ≤ length xs
    → n ≤ length ys
    → read_elems n 0 ys (map num (take n xs) ∷ ls) ≡ some (overlay 0 (take n xs) ys, [] ∷ ls)
read_elems-take n xs ys ls h k =
    subst
      (λ m. read_elems m 0 ys (map num (take n xs) ∷ ls) ≡ some (overlay 0 (take n xs) ys, [] ∷ ls))
      (length-take n xs h) (read_elems-nums (take n xs) 0 ys ls (omega (arith, length-take n xs h)))

-- Where a label stands, the loop reads nothing.
read_elems-text :
    (n i : ℕ) (ys : List ℤ) (s : String) (ws : List Word) (ls : Lines)
    → read_elems n i ys ((text s ∷ ws) ∷ ls) ≡ some (ys, (text s ∷ ws) ∷ ls)
unfolding read_elems
read_elems-text zero i ys s ws ls = refl
read_elems-text (suc n) i ys s ws ls = read_elems-text n (i + 1) ys s ws ls

to_bool-of_bool : (b : Bool) → to_bool (of_bool b) ≡ b
to_bool-of_bool true = refl
to_bool-of_bool false = refl

dec-inc : (n : ℤ) → n +ℤ pos 1 -ℤ pos 1 ≡ n
unfolding ◌+ℤ◌ ◌-ℤ◌
dec-inc n = ground arith

-- The channel numbers that `read_set` can hold and `print_set` prints in full.
pub record FitsChannels (s : Settings) : Type 0 where
  pub using_size : length s.using_channel ≡ 128
  pub ignore_size : length s.ignore_channel ≡ 128
  pub using_fits : pos_part s.num_using_channel ≤ 128
  pub ignore_fits : pos_part s.num_ignore_channel ≤ 128

-- The settings `s`, with the part of the channel arrays that is not in use as it was in `old`.
abbrev pub loaded : Settings → Settings → Settings
loaded old s = record s {
  on_using_channel = to_bool s.num_using_channel;
  using_channel = overlay 0 (take (pos_part s.num_using_channel) s.using_channel) old.using_channel;
  ignore_channel =
      overlay 0 (take (pos_part s.num_ignore_channel) s.ignore_channel) old.ignore_channel;
}

-- The read of the channels in use, whether their number is 0 or not.
read_using-take :
    (n : ℤ) (xs ys : List ℤ) (ls : Lines)
    → pos_part n ≤ length xs
    → pos_part n ≤ length ys
    → read_using n ys (map num (take (pos_part n) xs) ∷ ls)
      ≡ some (overlay 0 (take (pos_part n) xs) ys, [] ∷ ls)
unfolding read_elems
read_using-take (pos zero) xs ys ls h k = refl
read_using-take (pos (suc n)) xs ys ls h k = read_elems-take (suc n) xs ys ls h k
read_using-take (negsuc n) xs ys ls h k = refl

read_switches-print :
    (old s : Settings) (ls : Lines)
    → read_switches old (print_head s ++ ls)
      ≡ some (
        record old {
          latency = s.latency;
          show_in_front = s.show_in_front;
          show_num_log = s.show_num_log;
          on_circle = s.on_circle;
          on_ends = s.on_ends;
        },
        ls,
      )
unfolding read_switches
read_switches-print old s ls = simp (to_bool-of_bool)

read_used-print :
    (old : Settings) (t : String) (n : ℤ) (xs : List ℤ) (ls : Lines)
    → pos_part n ≤ length xs
    → pos_part n ≤ length old.using_channel
    → read_used old ((text t ∷ num n ∷ map num (take (pos_part n) xs)) ∷ ls)
      ≡ some (
        record old {
          num_using_channel = n;
          on_using_channel = to_bool n;
          using_channel = overlay 0 (take (pos_part n) xs) old.using_channel;
        },
        ls,
      )
unfolding read_used
read_used-print old t n xs ls h k =
    >>=-some (read_using n old.using_channel) _ (read_using-take n xs old.using_channel ls h k)

read_ignored-print :
    (old : Settings) (t : String) (n : ℤ) (xs : List ℤ) (ls : Lines)
    → pos_part n ≤ length xs
    → pos_part n ≤ length old.ignore_channel
    → read_ignored old ((text t ∷ num n ∷ map num (take (pos_part n) xs)) ∷ ls)
      ≡ some (
        record old {
          num_ignore_channel = n;
          ignore_channel = overlay 0 (take (pos_part n) xs) old.ignore_channel;
        },
        ls,
      )
unfolding read_ignored
read_ignored-print old t n xs ls h k =
    >>=-some (read_elems (pos_part n) 0 old.ignore_channel) _
      (read_elems-take (pos_part n) xs old.ignore_channel ls h k)

read_serial-print :
    (old : Settings) (line : List Word) (t : String) (name : Option Word) {w : Word} (ls : Lines)
    → name ≡ some w
    → read_serial old (line ∷ (text t ∷ []) ∷ word_of name ∷ ls)
      ≡ some (record old { serial_name = name }, ls)
unfolding read_serial
read_serial-print old line t none ls e = cc
read_serial-print old line t (some v) ls e = refl

read_lights-print :
    (old s : Settings)
    → read_lights old (print_lights s)
      ≡ some (
        record old {
          brightness = s.brightness;
          on_extend = s.on_extend;
          num_extend = s.num_extend;
          on_remain = s.on_remain;
          num_remain = s.num_remain;
          color_default = s.color_default;
          on_background = s.on_background;
          bright_background = s.bright_background;
          color_background_default = s.color_background_default;
        },
        [],
      )
unfolding read_lights
read_lights-print old s = simp (to_bool-of_bool, dec-inc)

-- `read_set` reads back every setting that was printed, if the file has one line more in front of
-- `serial_name=` than `print_set` prints. The part of the channel arrays that is not in use stays.
pub read_set-layout :
    (line : List Word) (old s : Settings) {w : Word}
    → s.serial_name ≡ some w
    → FitsChannels old
    → FitsChannels s
    → read_set old (layout line s) ≡ some (loaded old s, [])
unfolding read_set
read_set-layout line old s {w} e o f =
    >>=-some (read_switches old) _ (read_switches-print old s (line ∷ print_rest s))
    ∙ >>=-some (read_serial _) _ (read_serial-print _ line _ s.serial_name _ e)
    ∙ >>=-some (read_used _) _
        (read_used-print _ _ s.num_using_channel s.using_channel _ (omega arith) (omega arith))
    ∙ >>=-some (read_ignored _) _
        (read_ignored-print _ _ s.num_ignore_channel s.ignore_channel _ (omega arith) (omega arith))
    ∙ read_lights-print _ s

-- Without that line, the label of the channels in use is taken for the name of the port.
read_serial-shifted :
    (old : Settings) (t u : String) (name : Option Word) {w : Word} (ws : List Word) (ls : Lines)
    → name ≡ some w
    → read_serial old ((text t ∷ []) ∷ word_of name ∷ (text u ∷ ws) ∷ ls)
      ≡ some (record old { serial_name = some (text u) }, ls)
unfolding read_serial
read_serial-shifted old t u none ws ls e = cc
read_serial-shifted old t u (some v) ws ls e = refl

-- A label stops the loop over the channels: the rest of the line that it stands on is dropped, or
-- the rest of the line before, if the loop makes no round.
read_ignored-label :
    (old : Settings) (t u : String) (n : ℤ) (ws : List Word) (ls : Lines)
    → (rest : Lines) × (read_ignored old ((text t ∷ num n ∷ []) ∷ (text u ∷ ws) ∷ ls)
        ≡ some (record old { num_ignore_channel = n }, rest))
      × ((rest ≡ ls) ⊎ (rest ≡ (text u ∷ ws) ∷ ls))
unfolding read_ignored read_elems
read_ignored-label old t u (pos zero) ws ls = (_, refl, inr refl)
read_ignored-label old t u (pos (suc n)) ws ls =
    (_, >>=-some (read_elems n 1 old.ignore_channel) _ (read_elems-text n 1 _ u ws ls), inl refl)
read_ignored-label old t u (negsuc n) ws ls = (_, refl, inr refl)

-- Two lines fewer, or one, and the last number is missing.
read_last : (old s : Settings) → (read_ignored old >>= read_lights) (print_lights s) ≡ none
unfolding read_lights
read_last old s =
    let (rest, e, which) = read_ignored-label old _ _ s.brightness _ _ in
    >>=-some (read_ignored old) read_lights e ∙ elim which [ inl q ↦ rw q refl | inr q ↦ rw q refl ]

-- Of a file as `print_set` prints it, `read_set` finds no number for the last setting, so it reads
-- an indeterminate value, whatever the settings.
pub read_set-print_set :
    (old s : Settings) {w : Word}
    → s.serial_name ≡ some w
    → FitsChannels old
    → FitsChannels s
    → read_set old (print_set s) ≡ none
unfolding read_set print_set
read_set-print_set old s {w} e o f =
    >>=-some (read_switches old) _ (read_switches-print old s (print_rest s))
    ∙ >>=-some (read_serial _) _ (read_serial-shifted _ _ _ s.serial_name _ _ e)
    ∙ >>=-some (read_used _) _
        (read_used-print _ _ s.num_ignore_channel s.ignore_channel _ (omega arith) (omega arith))
    ∙ read_last _ s
