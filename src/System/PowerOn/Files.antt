-- ===== src/System/PowerOn/Files.antt =====
-- `main` of Effect_Piano/Effect_Piano.cpp up to its loop, from the files of a preset.
use mathlib.Core.Path.{subst}
use effect_piano_light_contr.Base.{
  sym, ap, ◌∙◌, refl, ℕ, suc, ◌≤◌, ◌<◌, ◌≡◌, ◌≢◌, inl, inr, List, ◌∷◌, length, Option, some,
  Option-cases, arith,
}
use effect_piano_light_contr.Base.Int.{ℤ, pos}
use effect_piano_light_contr.Host.Link.{Link}
use effect_piano_light_contr.Host.Text.{Word, Lines, scan_word}
use effect_piano_light_contr.Host.Settings.{Settings}
use effect_piano_light_contr.Host.Settings.File.{FitsChannels, layout, loaded}
use effect_piano_light_contr.Host.Palette.{Palette, read_color, print_palette}
use effect_piano_light_contr.Host.Palette.File.{read_color-print}
use effect_piano_light_contr.Host.State.{Host, Catalog, Disk, efpdata, efpcolor}
use effect_piano_light_contr.Host.Lights.{start}
use effect_piano_light_contr.Host.Presets.{select_set, load_color, with_palette, text_of}
use effect_piano_light_contr.Host.Presets.Reload.{load_set-layout}
use effect_piano_light_contr.Host.Keys.{quotient, ◌>>=◌}
use effect_piano_light_contr.Host.Devices.{get_number}
use effect_piano_light_contr.Host.Serial.{Attempt, opened, serialopen}
use effect_piano_light_contr.Host.Main
use effect_piano_light_contr.Host.Main.{
  World, Poll, Outcome, load_chosen, prepare, light_up, drain, heed, main_loop, main_test_input,
  name_port, with_host, main,
}
use effect_piano_light_contr.System.Agrees.{
  Switches, switches, shades, shades_of, Source, source, HasKey, IsReady,
}
use effect_piano_light_contr.System.Moves.{quotient-some}
use effect_piano_light_contr.System.PowerOn.Ready.{recolored, shades-recolored}

-- The files of the preset that is in use: the settings `s` with the line in front of the port's name,
-- and the colours of `p`, from 10 to 100 of them.
pub record Stored (h : Host) (c : Catalog) (s : Settings) (p : Palette) : Type 0 where
  pub line : List Word
  pub settings : h.disk (c.name_set c.using_set) efpdata ≡ some (layout line s)
  pub colors : h.disk (c.name_set c.using_set) efpcolor ≡ some (print_palette p)
  pub port : Word
  pub named : s.serial_name ≡ some port
  pub old_fits : FitsChannels h.settings
  pub fits : FitsChannels s
  pub last : ℕ
  pub count : p.num_color ≡ pos (suc last)
  pub ten : 9 ≤ last
  pub few : last < 100

-- The port opens at the first attempt, a number is typed for the device, and the input is emptied.
pub record Opens (w : World) : Type 0 where
  pub later : List Attempt
  pub port : w.attempts ≡ opened ∷ later
  pub device : ℤ
  pub left : Lines
  pub number : get_number (length w.typed) w.typed ≡ some (device, left)
  pub behind : List Poll
  pub drained : drain w.polls ≡ some behind

-- What the loop needs of the globals, and where `light_up` finds the colours
abbrev pub kept : Host → Switches × Source × Link × Disk × Catalog × Palette
kept h = (switches h, source h, h.link, h.disk, h.catalog, h.palette)

kept-name_port : (file : Lines) (h : Host) → kept (name_port file h) ≡ kept h
kept-name_port file h = elim (Option-cases (scan_word file).0) [
  | inl e ↦ rw (e, name_port) refl
  | inr (w, e) ↦ rw (e, name_port) refl
]

-- The globals behind `prepare`
abbrev pub set_up : Host → Catalog → Settings → ℤ → Host
set_up h c s q = record h {
  catalog = c;
  settings = loaded h.settings s;
  panel = record (h.panel) { cdplus = q };
}

prepare_finds :
    (w : World) (h : Host) {c : Catalog} {s : Settings} {p : Palette}
    → (chosen : (rest : Lines) × (select_set w.list h.catalog w.chosen ≡ some (c, rest)))
    → Stored h c s p
    → s.latency ≢ pos 0
    → (q : ℤ) × (prepare w.list w.chosen h ≡ some (set_up h c s q))
unfolding prepare
prepare_finds w h {c} {s} chosen found slow =
    let (q, e) = quotient-some (pos 300) s.latency slow in
    let read =
      load_set-layout c.using_set (record h { catalog = c }) found.line s found.settings found.named
        found.old_fits found.fits in
    (
      q,
      ap (λ o. o >>= load_chosen h) chosen.1
          ∙ ap
              (λ o. o >>= λ (loaded' : Host).
                quotient (pos 300) loaded'.settings.latency >>= λ (q' : ℤ).
                some (record loaded' { panel = record (loaded'.panel) { cdplus = q' } }))
              read
          ∙ ap (λ o. o >>= λ (q' : ℤ). some (set_up h c s q')) e,
    )

pub load_color_finds :
    (useset : ℤ) (g : Host) (p : Palette) (last : ℕ)
    → g.disk (g.catalog.name_set useset) efpcolor ≡ some (print_palette p)
    → p.num_color ≡ pos (suc last)
    → last < 100
    → (q : Palette) × (load_color useset g ≡ some (record g { palette = q }))
      × ((i : ℕ) → i ≤ last → q.color (pos i) ≡ p.color (pos i))
unfolding load_color
load_color_finds useset g p last file count few =
    let (q, read, same, colors) = read_color-print g.palette p last count few in
    (
      q,
      ap (λ f. with_palette g (read_color g.palette (text_of f))) file ∙ ap (with_palette g) read,
      colors,
    )

-- The globals that the files of the preset describe
abbrev pub described : Host → Catalog → Settings → Palette → Host
described h c s p = record h { catalog = c; settings = s; palette = p }

-- In front of `start`, with the colours read
pub record Reached (h : Host) (c : Catalog) (s : Settings) (p : Palette) : Type 0 where
  pub lit : Host
  pub has_switches : switches lit ≡ switches (described h c s p)
  pub has_shades :
      (reach : ℕ)
      → IsReady reach (source (described h c s p))
      → shades lit ≡ shades (described h c s p)
  pub link : lit.link ≡ h.link
  pub ready : (reach : ℕ) → IsReady reach (source (described h c s p)) → IsReady reach (source lit)

pub colored :
    (h : Host) {c : Catalog} {s : Settings} {p : Palette} (g : Host) (q : ℤ)
    → Stored h c s p
    → kept g ≡ kept (set_up h c s q)
    → (r : Reached h c s p) × (load_color g.catalog.using_set g ≡ some r.lit)
colored h {c} {s} {p} g q found same =
    let file : g.disk (g.catalog.name_set g.catalog.using_set) efpcolor ≡ some (print_palette p) =
      ap
        (λ ((sw, so, l, d, k, pal) : Switches × Source × Link × Disk × Catalog × Palette).
          d (k.name_set k.using_set) efpcolor)
        same
      ∙ found.colors in
    let (q', lit, colors) =
      load_color_finds g.catalog.using_set g p found.last file found.count found.few in
    let keyed : (x : ℤ) → HasKey x → q'.color x ≡ p.color x = λ x (n, below, e).
      subst (λ y. q'.color y ≡ p.color y) (sym e) (colors n (omega (arith, below, found.ten))) in
    let new = λ (v : Source). record v { color = q'.color } in
    (
      record {
        lit = record g { palette = q' };
        has_switches = ap (λ v. v.0) same;
        has_shades = λ reach r.
            ap (λ v. shades_of (new v.1)) same
            ∙ shades-recolored (source (described h c s p)) q'.color keyed r.front_key r.back_key;
        link = ap (λ v. v.2) same;
        ready = λ reach r.
            subst (λ v. IsReady reach (new v)) (sym (ap (λ v. v.1) same))
              (recolored (source (described h c s p)) q'.color keyed r);
      },
      lit,
    )

heeds :
    (scan_tenths : Lines → Option ℤ × Lines) (w : World) (h : Host) (opens : Opens w)
    → main_test_input scan_tenths w.list w.typed w.polls w.moments h
      ≡ main_loop scan_tenths w.list w.moments opens.left h
unfolding main_test_input
heeds scan_tenths w h opens =
    rw (opens.number, main_test_input)
      (ap (heed scan_tenths w.list w.moments opens.left h) opens.drained)

-- `main` comes to its loop.
pub main_comes :
    (scan_tenths : Lines → Option ℤ × Lines) (w : World) (h : Host) {c : Catalog} {s : Settings}
    {p : Palette}
    (chosen : (rest : Lines) × (select_set w.list h.catalog w.chosen ≡ some (c, rest)))
    (found : Stored h c s p) (opens : Opens w)
    → s.latency ≢ pos 0
    → (r : Reached h c s p) × (main scan_tenths w h
        ≡ main_loop scan_tenths w.list w.moments opens.left (start r.lit))
unfolding main serialopen main_test_input light_up
main_comes scan_tenths w h {c} {s} chosen found opens slow =
    let (q, ready) = prepare_finds w h chosen found slow in
    let g = name_port w.serial_file (set_up h c s q) in
    let (r, lit) = colored h g q found (kept-name_port w.serial_file (set_up h c s q)) in
    let go = λ (g : Host).
      with_host (main_test_input scan_tenths w.list w.typed w.polls w.moments) (light_up g) in
    (
      r,
      ap (with_host (λ h'. Main.opened w.serial_file go h' (serialopen w.attempts h'.panel.kbcd)))
            ready
          ∙ ap (λ a. Main.opened w.serial_file go (set_up h c s q) (serialopen a h.panel.kbcd))
              opens.port
          ∙ ap
              (λ o.
                with_host (main_test_input scan_tenths w.list w.typed w.polls w.moments)
                  (o >>= λ (at : Host). some (start at)))
              lit
          ∙ heeds scan_tenths w (start r.lit) opens,
    )
