-- ===== src/Host/Console.antt =====
-- `con_mode` of Effect_Piano/Effect_Piano.cpp: the commands that are typed on the console. What it
-- prints is left out. What `scanf ("%f")` and `(int) (rm * 10)` make of the next word is the C
-- library's: a parameter.
pub mod Modes
pub mod Words
pub mod Handlers
pub mod Session
use Prim.Native.String.{String}
use package.text.Mathlib.Text.{◌==◌ as str_eq}
use effect_piano_light_contr.Base.{
  ℕ, zero, suc, ◌+◌, Bool, true, false, ◌||◌, List, [], ◌∷◌, Option, none, some, length,
  if◌then◌else◌,
}
use effect_piano_light_contr.Base.Int.{ℤ, pos, leb_ℤ, ltb_ℤ, pos_part, is_zero}
use effect_piano_light_contr.Host.Text.{
  Word, num, text, Lines, scan_word, scan_int, read_int, read_elems,
}
use effect_piano_light_contr.Host.State.{Host, Panel, send, write_set}
use effect_piano_light_contr.Host.Lights.{mix, refresh_bg, start}
use effect_piano_light_contr.Host.Presets.{select_set, load_color, text_of}
use effect_piano_light_contr.Host.Keys.{quotient, save}

-- `same` on the word that was read and a literal
abbrev pub same : Word → String → Bool
same (num n) t = false
same (text s) t = str_eq s t

-- `type`: 0, 1, 2, and 4, for which the `switch` has no case.
pub data Mode : Type 0 where
  top setting showing about : Mode

-- What a round of the loop does: it goes on, with what is left to read; it leaves the console; it
-- ends the program; or the program divides by 0, leaves the range of an array or reads a variable
-- that has no value.
pub data Fate : Type 0 where
  goes : Mode → Lines → Host → Fate
  leaves : Lines → Host → Fate
  exits : Host → Fate
  fails : Fate

-- What was read, or the end of the program's defined behaviour.
abbrev pub reads : {A : Type 0} → Option (A × Lines) → (A → Lines → Fate) → Fate
reads none f = fails
reads (some (a, rest)) f = f a rest

abbrev pub given : {A : Type 0} → Option A → (A → Fate) → Fate
given none f = fails
given (some a) f = f a

-- `case 0`
unfoldable pub run_top : Word → Lines → Host → Fate
run_top cmd ls h =
    if same cmd "quit" || (same cmd "exit" || (same cmd "esc" || same cmd "escape"))
    then leaves ls h
    else if same cmd "set"
    then goes setting ls h
    else if same cmd "show"
    then goes showing ls h
    else if same cmd "help"
    then goes top ls h
    else if same cmd "about"
    then goes about ls h
    else if same cmd "shut_down"
    then exits h
    else goes top ls h

-- `show log`: the int that is read stands for a `bool`.
unfoldable pub show_log : Lines → Host → Fate
unfolding scan_int write_set
show_log ls h =
    let (n, rest) = scan_int ls in
    given n λ v. goes top rest (
      save (record h {
        settings = record (h.settings) { show_num_log = if is_zero v then false else true };
      }))

-- `case 2`. All but `log` only print.
unfoldable pub run_show : Word → Lines → Host → Fate
unfolding show_log
run_show cmd ls h = if same cmd "log" then show_log ls h else goes top ls h

-- `set brightness`
unfoldable pub set_brightness : Lines → Host → Fate
unfolding scan_int write_set
set_brightness ls h = reads (read_int h.settings.brightness ls) λ n rest.
    let b : ℤ = if ltb_ℤ n (pos 10) then pos 10 else n in
    let kept : Host = record h { settings = record (h.settings) { brightness = b } } in
    goes top rest (if leb_ℤ b (pos 255) then save (save (send (pos 93 ∷ b ∷ []) kept)) else kept)

-- The numbers from 0 to `hi`.
abbrev pub clamp : ℤ → ℤ → ℤ
clamp hi n = if ltb_ℤ hi n then hi else if ltb_ℤ n (pos 0) then pos 0 else n

-- The number of LEDs to extend by, sent if the extension is on, and saved.
unfoldable pub extended : ℤ → Host → Host
unfolding write_set
extended e h =
    let kept : Host = record h { settings = record (h.settings) { num_extend = e } } in
    save (if h.settings.on_extend then send (pos 96 ∷ e ∷ []) kept else kept)

-- `set extend`
unfoldable pub set_extend : Lines → Host → Fate
unfolding scan_int
set_extend ls h =
    reads (read_int h.settings.num_extend ls)
      λ n rest. goes top rest (extended (clamp (pos 10) n) h)

-- `set select`: the presets are read from `list`.
unfoldable pub set_select : Lines → Lines → Host → Fate
unfolding select_set load_color
set_select list ls h = reads (select_set list h.catalog ls) λ c rest.
    given (load_color c.using_set (start (send (pos 125 ∷ []) (record h { catalog = c }))))
      λ h'. goes top rest h'

-- `set background color_default`
unfoldable pub set_background_color : Lines → Host → Fate
unfolding scan_int write_set
set_background_color ls h = reads (read_int h.settings.color_background_default ls) λ n rest.
    goes top rest
      (save (record h { settings = record (h.settings) { color_background_default = n } }))

-- `set background brightness`
unfoldable pub set_background_brightness : Lines → Host → Fate
unfolding scan_int mix refresh_bg write_set
set_background_brightness ls h = reads (read_int h.settings.bright_background ls) λ n rest.
    let kept : Host = record h { settings = record (h.settings) { bright_background = n } } in
    let (done, mixed) = mix kept in
    goes top rest (
      if leb_ℤ n (pos 0) || leb_ℤ (pos 256) n
      then kept
      else if done
      then save (if mixed.settings.on_background then refresh_bg mixed else mixed)
      else mixed)

-- `set background`: any other word behind it goes on as a word behind `show`.
unfoldable pub set_background : Lines → Host → Fate
unfolding scan_word set_background_color set_background_brightness run_show
set_background ls h =
    let (word, rest) = scan_word ls in
    elim word [
      | none ↦ run_show (text "background") rest h
      | some cmd ↦
          if same cmd "color_default"
          then set_background_color rest h
          else if same cmd "brightness"
          then set_background_brightness rest h
          else run_show cmd rest h
    ]

-- `set latency`, which goes on as `show latency`.
unfoldable pub set_latency : Word → Lines → Host → Fate
unfolding scan_int quotient run_show
set_latency cmd ls h = reads (read_int h.settings.latency ls) λ n rest.
    given (quotient (pos 300) n) λ q. run_show cmd rest (record h {
      settings = record (h.settings) { latency = n };
      panel = record (h.panel) { cdplus = q };
    })

-- `set using_channel`
unfoldable pub set_using_channel : Lines → Host → Fate
unfolding scan_int read_elems
set_using_channel ls h = reads (read_int h.settings.num_using_channel ls) λ n rest.
    reads (read_elems (pos_part n) 0 h.settings.using_channel rest) λ xs rest'.
      goes top rest' (record h {
        settings = record (h.settings) {
          num_using_channel = n;
          on_using_channel = ltb_ℤ (pos 0) n;
          using_channel = xs;
        };
      })

-- `set ignore_channel`, which goes on as `show ignore_channel`.
unfoldable pub set_ignore_channel : Word → Lines → Host → Fate
unfolding scan_int read_elems run_show
set_ignore_channel cmd ls h = reads (read_int h.settings.num_ignore_channel ls) λ n rest.
    reads (read_elems (pos_part n) 0 h.settings.ignore_channel rest) λ xs rest'.
      run_show cmd rest' (record h {
        settings = record (h.settings) { num_ignore_channel = n; ignore_channel = xs };
      })

module _ (scan_tenths : Lines → Option ℤ × Lines) (list : Lines) where
  -- `set remain`
  unfoldable pub set_remain : Lines → Host → Fate
  unfolding write_set
  set_remain ls h =
      let (tenths, rest) = scan_tenths ls in
      given tenths λ n.
        let t : ℤ = clamp (pos 200) n in
        let kept : Host = record h { settings = record (h.settings) { num_remain = t } } in
        goes top rest (save (if h.settings.on_remain then send (pos 98 ∷ t ∷ []) kept else kept))

  -- `case 1`
  unfoldable pub run_set : Word → Lines → Host → Fate
  run_set cmd ls h =
      if same cmd "brightness"
      then set_brightness ls h
      else if same cmd "extend"
      then set_extend ls h
      else if same cmd "remain"
      then set_remain ls h
      else if same cmd "select"
      then set_select list ls h
      else if same cmd "background"
      then set_background ls h
      else if same cmd "latency"
      then set_latency cmd ls h
      else if same cmd "using_channel"
      then set_using_channel ls h
      else if same cmd "ignore_channel"
      then set_ignore_channel cmd ls h
      else goes top ls h

  -- The `switch`, on the word that was read.
  unfoldable pub run_word : Mode → Word → Lines → Host → Fate
  unfolding run_top run_set run_show
  run_word top cmd ls h = run_top cmd ls h
  run_word setting cmd ls h = run_set cmd ls h
  run_word showing cmd ls h = run_show cmd ls h
  run_word about cmd ls h = goes about ls h

-- Where the console stands when what is typed is used up, or when it is left.
pub data Console : Type 0 where
  waits : Mode → Host → Console
  back : Lines → Host → Console
  exited : Host → Console
  failed : Console

-- How the loop goes on.
abbrev pub follow : (Mode → Lines → Host → Console) → Fate → Console
follow loop (goes mode rest h) = loop mode rest h
follow loop (leaves rest h) = back rest h
follow loop (exits h) = exited h
follow loop fails = failed

module _ (scan_tenths : Lines → Option ℤ × Lines) (list : Lines) where
  -- The loop of `con_mode`. Each round takes a word, so as many rounds as words are enough:
  -- `Session.run_console_fuel`.
  unfoldable pub run_console : ℕ → Mode → Lines → Host → Console
  unfolding scan_word run_word
  run_console zero mode ls h = waits mode h
  run_console (suc n) mode ls h =
      let (word, rest) = scan_word ls in
      elim word [
        | none ↦ waits mode h
        | some cmd ↦ follow (run_console n) (run_word scan_tenths list mode cmd rest h)
      ]
