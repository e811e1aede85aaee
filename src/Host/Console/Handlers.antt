-- ===== src/Host/Console/Handlers.antt =====
-- Each command of `con_mode` keeps the queue in order, and reads on in what is typed.
use effect_piano_light_contr.Base.{
  ap, ◌||◌, ℕ, ◌≤◌, ◌≡◌, refl, Bool, true, false, Option, none, some, [], ◌∷◌, arith, if◌then◌else◌,
}
use effect_piano_light_contr.Base.Int.{ℤ, pos, ◌-ℤ◌, pos_part, ltb_ℤ, leb_ℤ, is_zero}
use effect_piano_light_contr.Host.Text.{
  ◌>>=◌, pure, Word, text, Lines, scan_word, scan_int, read_int, read_elems,
}
use effect_piano_light_contr.Host.State.{Catalog, Host, send}
use effect_piano_light_contr.Host.Lights.{mix, refresh_bg, start}
use effect_piano_light_contr.Host.Presets.{read_list, select_set}
use effect_piano_light_contr.Host.Keys.{quotient, save}
use effect_piano_light_contr.Host.Keys.InOrder.{
  InOrder, send-InOrder, mix-InOrder, refresh_bg-InOrder, save-InOrder, start-InOrder, if-InOrder,
}
use effect_piano_light_contr.Host.Keys.Queue.{Ends, nowhere, somewhere, load_color-Ends}
use effect_piano_light_contr.Host.Console.{
  same, Mode, top, setting, showing, about, Fate, goes, leaves, exits, fails, reads, given, clamp,
  extended, run_top, show_log, run_show, set_brightness, set_extend, set_select,
  set_background_color, set_background_brightness, set_background, set_latency, set_using_channel,
  set_ignore_channel, set_remain, run_set, run_word,
}
use effect_piano_light_contr.Host.Console.Words.{
  words, words-scan_word-le, words-scan_int-le, words-read_int-le, words-read_elems-le, >>=-inv,
}

-- The queue is in order, and at most `m` words are left.
pub data Keeps (m : ℕ) : Fate → Type 0 where
  goes_on :
      {mode : Mode} {ls : Lines} {h : Host} → words ls ≤ m → InOrder h → Keeps m (goes mode ls h)
  left : {ls : Lines} {h : Host} → words ls ≤ m → InOrder h → Keeps m (leaves ls h)
  exited : {h : Host} → InOrder h → Keeps m (exits h)
  failed : Keeps m fails

if-Keeps : {m : ℕ} (b : Bool) (x y : Fate) → Keeps m x → Keeps m y → Keeps m (if b then x else y)
if-Keeps true x y v w = v
if-Keeps false x y v w = w

reads-Keeps :
    {A : Type 0} {m : ℕ} (r : Option (A × Lines)) (f : A → Lines → Fate)
    → ((a : A) (rest : Lines) → r ≡ some (a, rest) → Keeps m (f a rest))
    → Keeps m (reads r f)
reads-Keeps none f k = failed
reads-Keeps (some (a, rest)) f k = k a rest refl

given-Keeps :
    {A : Type 0} {m : ℕ} (r : Option A) (f : A → Fate)
    → ((a : A) → r ≡ some a → Keeps m (f a))
    → Keeps m (given r f)
given-Keeps none f k = failed
given-Keeps (some a) f k = k a refl

given-Ends :
    {m : ℕ} {r : Option Host} {f : Host → Fate}
    → Ends r
    → ((g : Host) → InOrder g → Keeps m (f g))
    → Keeps m (given r f)
given-Ends nowhere k = failed
given-Ends (somewhere {h} w) k = k h w

run_top-Keeps :
    (m : ℕ) (cmd : Word) (ls : Lines) (h : Host)
    → words ls ≤ m
    → InOrder h
    → Keeps m (run_top cmd ls h)
unfolding run_top
run_top-Keeps m cmd ls h few v =
    let stays : (mode : Mode) → Keeps m (goes mode ls h) = λ mode. goes_on few v in
    if-Keeps (same cmd "quit" || (same cmd "exit" || (same cmd "esc" || same cmd "escape"))) _ _
      (left few v)
      (if-Keeps (same cmd "set") _ _ (stays setting) (
        if-Keeps (same cmd "show") _ _ (stays showing) (
          if-Keeps (same cmd "help") _ _ (stays top) (
            if-Keeps (same cmd "about") _ _ (stays about)
              (if-Keeps (same cmd "shut_down") _ _ (exited v) (stays top))))))

run_show-Keeps :
    (m : ℕ) (cmd : Word) (ls : Lines) (h : Host)
    → words ls ≤ m
    → InOrder h
    → Keeps m (run_show cmd ls h)
unfolding run_show show_log
run_show-Keeps m cmd ls h few v =
    if-Keeps (same cmd "log") _ _
      (given-Keeps (scan_int ls).0 _ λ n e. goes_on (omega (arith, words-scan_int-le ls)) (
        save-InOrder
          {h = record h {
            settings = record (h.settings) { show_num_log = if is_zero n then false else true };
          }}
          (record { valid = v.valid })))
      (goes_on few v)

set_brightness-Keeps :
    (m : ℕ) (ls : Lines) (h : Host) → words ls ≤ m → InOrder h → Keeps m (set_brightness ls h)
unfolding set_brightness
set_brightness-Keeps m ls h few v = reads-Keeps (read_int h.settings.brightness ls) _ λ n rest e.
    let b : ℤ = if ltb_ℤ n (pos 10) then pos 10 else n in
    let kept : Host = record h { settings = record (h.settings) { brightness = b } } in
    let w : InOrder kept = record { valid = v.valid } in
    goes_on (omega (arith, words-read_int-le h.settings.brightness ls e)) (
      if-InOrder (leb_ℤ b (pos 255)) _ _
        (save-InOrder {h = save (send (pos 93 ∷ b ∷ []) kept)}
          (save-InOrder {h = send (pos 93 ∷ b ∷ []) kept} (send-InOrder (pos 93 ∷ b ∷ []) w)))
        w)

extended-InOrder : (e : ℤ) (h : Host) → InOrder h → InOrder (extended e h)
unfolding extended
extended-InOrder e h v =
    let kept : Host = record h { settings = record (h.settings) { num_extend = e } } in
    let w : InOrder kept = record { valid = v.valid } in
    save-InOrder {h = if h.settings.on_extend then send (pos 96 ∷ e ∷ []) kept else kept}
      (if-InOrder h.settings.on_extend _ _ (send-InOrder (pos 96 ∷ e ∷ []) w) w)

set_extend-Keeps :
    (m : ℕ) (ls : Lines) (h : Host) → words ls ≤ m → InOrder h → Keeps m (set_extend ls h)
unfolding set_extend
set_extend-Keeps m ls h few v = reads-Keeps (read_int h.settings.num_extend ls) _ λ n rest e.
    goes_on (omega (arith, words-read_int-le h.settings.num_extend ls e))
      (extended-InOrder (clamp (pos 10) n) h v)

words_chosen :
    (r : Option (Catalog × Lines)) (ls : Lines) {d : Catalog} {rest : Lines}
    → elim r [
      | none ↦ none
      | some (listed, _) ↦
          (do n ← read_int listed.using_set; pure (record listed { using_set = n -ℤ pos 1 })) ls
    ]
      ≡ some (d, rest)
    → words rest ≤ words ls
words_chosen none ls h = cc
words_chosen (some (listed, other)) ls h =
    let (n, mid, e, f) =
      >>=-inv (read_int listed.using_set ls) (λ n. pure (record listed { using_set = n -ℤ pos 1 }))
        h in
    omega (arith, words-read_int-le listed.using_set ls e, ap words (pure_rest f))
  where
    pure_rest :
        {a d : Catalog} {mid rest : Lines}
        → ◌≡◌ {A = Option (Catalog × Lines)} (some (a, mid)) (some (d, rest))
        → mid ≡ rest
    pure_rest f = cc

words-select_set-le :
    (list : Lines) (c : Catalog) (ls : Lines) {d : Catalog} {rest : Lines}
    → select_set list c ls ≡ some (d, rest)
    → words rest ≤ words ls
unfolding select_set
words-select_set-le list c ls h = words_chosen (read_list c list) ls h

set_select-Keeps :
    (m : ℕ) (list ls : Lines) (h : Host) → words ls ≤ m → InOrder h → Keeps m (set_select list ls h)
unfolding set_select
set_select-Keeps m list ls h few v = reads-Keeps (select_set list h.catalog ls) _ λ c rest e.
    given-Ends
      (load_color-Ends c.using_set (start (send (pos 125 ∷ []) (record h { catalog = c }))) (
        start-InOrder (
          send-InOrder (pos 125 ∷ []) {h = record h { catalog = c }} (record { valid = v.valid }))))
      λ g w. goes_on (omega (arith, words-select_set-le list h.catalog ls e)) w

set_background_color-Keeps :
    (m : ℕ) (ls : Lines) (h : Host) → words ls ≤ m → InOrder h → Keeps m (set_background_color ls h)
unfolding set_background_color
set_background_color-Keeps m ls h few v =
    reads-Keeps (read_int h.settings.color_background_default ls) _ λ n rest e.
      goes_on (omega (arith, words-read_int-le h.settings.color_background_default ls e)) (
        save-InOrder
          {h = record h { settings = record (h.settings) { color_background_default = n } }}
          (record { valid = v.valid }))

set_background_brightness-Keeps :
    (m : ℕ) (ls : Lines) (h : Host)
    → words ls ≤ m
    → InOrder h
    → Keeps m (set_background_brightness ls h)
unfolding set_background_brightness
set_background_brightness-Keeps m ls h few v =
    reads-Keeps (read_int h.settings.bright_background ls) _ λ n rest e.
      let kept : Host = record h { settings = record (h.settings) { bright_background = n } } in
      let w : InOrder kept = record { valid = v.valid } in
      let mixed : InOrder (mix kept).1 = mix-InOrder w in
      goes_on (omega (arith, words-read_int-le h.settings.bright_background ls e)) (
        if-InOrder (leb_ℤ n (pos 0) || leb_ℤ (pos 256) n) _ _ w (
          if-InOrder (mix kept).0 _ _
            (save-InOrder
              {h = if (mix kept).1.settings.on_background
                then refresh_bg (mix kept).1
                else (mix kept).1}
              (if-InOrder (mix kept).1.settings.on_background _ _ (refresh_bg-InOrder mixed) mixed))
            mixed))

set_background-Keeps :
    (m : ℕ) (ls : Lines) (h : Host) → words ls ≤ m → InOrder h → Keeps m (set_background ls h)
unfolding set_background
set_background-Keeps m ls h few v =
    words_background (scan_word ls).0 (scan_word ls).1 (omega (arith, words-scan_word-le ls))
  where
    words_background :
        (word : Option Word) (rest : Lines)
        → words rest ≤ m
        → Keeps m (elim word [
          | none ↦ run_show (text "background") rest h
          | some cmd ↦
              if same cmd "color_default"
              then set_background_color rest h
              else if same cmd "brightness"
              then set_background_brightness rest h
              else run_show cmd rest h
        ])
    words_background none rest k = run_show-Keeps m (text "background") rest h k v
    words_background (some cmd) rest k =
        if-Keeps (same cmd "color_default") _ _ (set_background_color-Keeps m rest h k v) (
          if-Keeps (same cmd "brightness") _ _ (set_background_brightness-Keeps m rest h k v)
            (run_show-Keeps m cmd rest h k v))

set_latency-Keeps :
    (m : ℕ) (cmd : Word) (ls : Lines) (h : Host)
    → words ls ≤ m
    → InOrder h
    → Keeps m (set_latency cmd ls h)
unfolding set_latency
set_latency-Keeps m cmd ls h few v = reads-Keeps (read_int h.settings.latency ls) _ λ n rest e.
    given-Keeps (quotient (pos 300) n) _ λ q e'.
      run_show-Keeps m cmd rest _ (omega (arith, words-read_int-le h.settings.latency ls e))
        (record { valid = v.valid })

set_using_channel-Keeps :
    (m : ℕ) (ls : Lines) (h : Host) → words ls ≤ m → InOrder h → Keeps m (set_using_channel ls h)
unfolding set_using_channel
set_using_channel-Keeps m ls h few v =
    reads-Keeps (read_int h.settings.num_using_channel ls) _ λ n rest e.
      reads-Keeps (read_elems (pos_part n) 0 h.settings.using_channel rest) _ λ xs left e'.
        goes_on
          (omega (
            arith,
            words-read_int-le h.settings.num_using_channel ls e,
            words-read_elems-le (pos_part n) 0 h.settings.using_channel rest e',
          ))
          (record { valid = v.valid })

set_ignore_channel-Keeps :
    (m : ℕ) (cmd : Word) (ls : Lines) (h : Host)
    → words ls ≤ m
    → InOrder h
    → Keeps m (set_ignore_channel cmd ls h)
unfolding set_ignore_channel
set_ignore_channel-Keeps m cmd ls h few v =
    reads-Keeps (read_int h.settings.num_ignore_channel ls) _ λ n rest e.
      reads-Keeps (read_elems (pos_part n) 0 h.settings.ignore_channel rest) _ λ xs left e'.
        run_show-Keeps m cmd left _
          (omega (
            arith,
            words-read_int-le h.settings.num_ignore_channel ls e,
            words-read_elems-le (pos_part n) 0 h.settings.ignore_channel rest e',
          ))
          (record { valid = v.valid })

-- A read of a number in tenths reads on.
abbrev pub ReadsOn : (Lines → Option ℤ × Lines) → Type 0
ReadsOn scan_tenths = (ls : Lines) → words (scan_tenths ls).1 ≤ words ls

module _ (scan_tenths : Lines → Option ℤ × Lines) (list : Lines) (on : ReadsOn scan_tenths) where
  set_remain-Keeps :
      (m : ℕ) (ls : Lines) (h : Host)
      → words ls ≤ m
      → InOrder h
      → Keeps m (set_remain scan_tenths list ls h)
  unfolding set_remain
  set_remain-Keeps m ls h few v = given-Keeps (scan_tenths ls).0 _ λ n e.
      let t : ℤ = clamp (pos 200) n in
      let kept : Host = record h { settings = record (h.settings) { num_remain = t } } in
      let w : InOrder kept = record { valid = v.valid } in
      goes_on (omega (arith, on ls)) (
        save-InOrder {h = if h.settings.on_remain then send (pos 98 ∷ t ∷ []) kept else kept}
          (if-InOrder h.settings.on_remain _ _ (send-InOrder (pos 98 ∷ t ∷ []) w) w))

  run_set-Keeps :
      (m : ℕ) (cmd : Word) (ls : Lines) (h : Host)
      → words ls ≤ m
      → InOrder h
      → Keeps m (run_set scan_tenths list cmd ls h)
  unfolding run_set
  run_set-Keeps m cmd ls h few v =
      if-Keeps (same cmd "brightness") _ _ (set_brightness-Keeps m ls h few v) (
        if-Keeps (same cmd "extend") _ _ (set_extend-Keeps m ls h few v) (
          if-Keeps (same cmd "remain") _ _ (set_remain-Keeps m ls h few v) (
            if-Keeps (same cmd "select") _ _ (set_select-Keeps m list ls h few v) (
              if-Keeps (same cmd "background") _ _ (set_background-Keeps m ls h few v) (
                if-Keeps (same cmd "latency") _ _ (set_latency-Keeps m cmd ls h few v) (
                  if-Keeps (same cmd "using_channel") _ _ (set_using_channel-Keeps m ls h few v) (
                    if-Keeps (same cmd "ignore_channel") _ _
                      (set_ignore_channel-Keeps m cmd ls h few v) (goes_on few v))))))))

  -- Whatever word is read, the queue stays in order, and no more words are left than there were.
  pub run_word-Keeps :
      (m : ℕ) (mode : Mode) (cmd : Word) (ls : Lines) (h : Host)
      → words ls ≤ m
      → InOrder h
      → Keeps m (run_word scan_tenths list mode cmd ls h)
  unfolding run_word
  run_word-Keeps m top cmd ls h few v = run_top-Keeps m cmd ls h few v
  run_word-Keeps m setting cmd ls h few v = run_set-Keeps m cmd ls h few v
  run_word-Keeps m showing cmd ls h few v = run_show-Keeps m cmd ls h few v
  run_word-Keeps m about cmd ls h few v = goes_on few v
