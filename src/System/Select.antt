-- ===== src/System/Select.antt =====
-- Presets chosen while the program runs, by a key or in the console of Effect_Piano/Effect_Piano.cpp,
-- and the sketch of Effect_Piano_v1.3.0.ino.
use mathlib.Core.Path.{subst}
use effect_piano_light_contr.Base.{
  sym, ap, ◌∙◌, refl, ℕ, suc, ◌≤◌, ◌<◌, ◌≡◌, List, [], ◌∷◌, ◌++◌, length, some, Bool, true, false,
}
use effect_piano_light_contr.Base.Int.{pos, is_zero}
use effect_piano_light_contr.Host.Link.Fifo.{Holds}
use effect_piano_light_contr.Host.Text.{Lines}
use effect_piano_light_contr.Host.Settings.{Settings}
use effect_piano_light_contr.Host.Settings.File.{loaded}
use effect_piano_light_contr.Host.Palette.{Palette, print_palette}
use effect_piano_light_contr.Host.State.{Host, Catalog, Disk, efpcolor, send}
use effect_piano_light_contr.Host.Lights.{
  mix, refresh_bg, refresh_or_off, start_color, start_background, start_switches, start,
}
use effect_piano_light_contr.Host.Presets.{select_set, load_color}
use effect_piano_light_contr.Host.Presets.Reload.{load_set-layout}
use effect_piano_light_contr.Host.Keys.{choose_preset, ◌>>=◌}
use effect_piano_light_contr.Host.Console.{goes, top, set_select, reads, given}
use effect_piano_light_contr.Sketch.State.{FastLed, Sketch}
use effect_piano_light_contr.Sketch.Serial.{bytes}
use effect_piano_light_contr.Sketch.Loop.{feed, ready}
use effect_piano_light_contr.Sketch.Config.{config}
use effect_piano_light_contr.System.{IsSent}
use effect_piano_light_contr.System.Start.{IsSendable, wanted, start_configures}
use effect_piano_light_contr.System.Agrees.{Agrees, switches, shades, shades_of, source, IsReady}
use effect_piano_light_contr.System.Begin.{view-start, start_in_step}
use effect_piano_light_contr.System.PowerOn.Files.{
  Stored, Reached, described, colored, load_color_finds,
}
use effect_piano_light_contr.System.PowerOn.Ready.{IsReady-IsSendable}

-- The list, with the preset `i` in use
abbrev pub chosen : ℕ → Host → Catalog
chosen i h = record (h.catalog) { using_set = pos i }

choose_preset-start :
    (i : ℕ) (h : Host) {s : Settings} {p : Palette}
    → Stored h (chosen i h) s p
    → (r : Reached h (chosen i h) s p) × (choose_preset i h
        ≡ some (start (send (pos 125 ∷ []) r.lit)))
unfolding choose_preset
choose_preset-start i h {s} found =
    let c = chosen i h in
    let g : Host = record h { catalog = c; settings = loaded h.settings s } in
    let (r, lit) = colored h g (pos 0) found refl in
    (
      r,
      ap
            (λ o. o >>= λ (l : Host).
              load_color (pos i) l >>= λ (k : Host). some (start (send (pos 125 ∷ []) k)))
            (load_set-layout (pos i) (record h { catalog = c }) found.line s found.settings
              found.named found.old_fits found.fits)
          ∙ ap (λ o. o >>= λ (k : Host). some (start (send (pos 125 ∷ []) k))) lit,
    )

-- The key of a preset, with nothing waiting in the queue. The preset has a file of settings with the
-- line that `print_set` leaves out, with a port named and the channels within their arrays, and a file
-- of 10 to 100 colours; by these files and the globals no rainbow is on, the latency and the brightness
-- of the background are not 0, there are at most 6 presets, at most `reach` LEDs are asked for on each
-- side of a key, and neither the brightness nor an argument that the keys send is 0 as a byte. Then the
-- preset is loaded, the program has the switches and the colours of the files and is as it was required, nothing waits,
-- and the bytes that it writes bring the sketch, whatever its state, in front of `loop ()` in a state
-- that agrees with the settings.
pub choose_preset_in_step :
    (lib : FastLed) (reach i : ℕ) (h : Host) {w : List ℕ} (t : Sketch) {s : Settings} {p : Palette}
    → Holds h.link [] w
    → Stored h (chosen i h) s p
    → IsReady reach (source (described h (chosen i h) s p))
    → IsSent s.brightness
    → (g : Host) × (choose_preset i h ≡ some g)
      × (switches g ≡ switches (described h (chosen i h) s p))
      × (shades g ≡ shades (described h (chosen i h) s p))
      × IsReady reach (source g)
      × ((out : List ℕ) × (u : Sketch) × Holds g.link [] (w ++ out)
          × ((fuel : ℕ) → length out ≤ fuel → feed lib fuel t (bytes out) ≡ ready u)
          × Agrees (switches g) (shades g) (config u))
choose_preset_in_step lib reach i h {w} t held found r bright =
    let (at, e) = choose_preset-start i h found in
    let lit = at.ready reach r in
    let bright_lit = subst (λ v. IsSent v.brightness) (sym at.has_switches) bright in
    let (r', run) =
      start_in_step lib reach at.lit t (subst (λ l. Holds l [] w) (sym at.link) held) lit
        (IsReady-IsSendable at.lit lit bright_lit) in
    (
      start (send (pos 125 ∷ []) at.lit),
      e,
      ap (λ v. v.0) (view-start (send (pos 125 ∷ []) at.lit) lit.lit) ∙ at.has_switches,
      ap (λ v. shades_of v.1) (view-start (send (pos 125 ∷ []) at.lit) lit.lit)
          ∙ at.has_shades reach r,
      r',
      run,
    )

-- `start` leaves the files and the list alone.
kept-refresh_or_off :
    (done on : Bool) (h : Host)
    → ◌≡◌ {A = Disk × Catalog}
        ((refresh_or_off done on h).disk, (refresh_or_off done on h).catalog)
        (h.disk, h.catalog)
unfolding refresh_or_off refresh_bg
kept-refresh_or_off true true h = refl
kept-refresh_or_off true false h = refl
kept-refresh_or_off false on h = refl

kept-start :
    (h : Host) → ◌≡◌ {A = Disk × Catalog} ((start h).disk, (start h).catalog) (h.disk, h.catalog)
unfolding start start_switches start_background start_color mix
kept-start h =
    let (done, mixed) = mix (start_color h) in
    kept-refresh_or_off done mixed.settings.on_background mixed

-- `set select`, with nothing waiting in the queue, a preset that the list has, a file of 1 to 100
-- colours for it, and no argument of `start` 0 as a byte: the console goes on with the colours of the
-- file, but the bytes that it writes bring the sketch, whatever its state, in front of `loop ()` in the
-- configuration that the settings and the colours from before ask for, and the switches of the settings
-- are those from before, if the brightness of the background is not 0.
pub set_select_lags :
    (lib : FastLed) (list ls : Lines) (h : Host) {w : List ℕ} (t : Sketch) {c : Catalog}
    {rest : Lines} (p : Palette) (last : ℕ)
    → Holds h.link [] w
    → select_set list h.catalog ls ≡ some (c, rest)
    → h.disk (c.name_set c.using_set) efpcolor ≡ some (print_palette p)
    → p.num_color ≡ pos (suc last)
    → last < 100
    → is_zero h.settings.bright_background ≡ false
    → IsSendable h.settings h.palette
    → (g : Host) × (set_select list ls h ≡ goes top rest g)
      × ((i : ℕ) → i ≤ last → g.palette.color (pos i) ≡ p.color (pos i))
      × (switches g ≡ switches h)
      × ((out : List ℕ) × (u : Sketch) × (g.link.wire ≡ w ++ out)
          × ((fuel : ℕ) → length out ≤ fuel → feed lib fuel t (bytes out) ≡ ready u)
          × (config u ≡ wanted h.settings h.palette (config t)))
unfolding set_select
set_select_lags lib list ls h {w} t {c} {rest} p last held listed file count few lit sendable =
    let before : Host = send (pos 125 ∷ []) (record h { catalog = c }) in
    let here = kept-start before in
    let (q, read, colors) =
      load_color_finds c.using_set (start before) p last
        (ap (λ ((d, k) : Disk × Catalog). d (k.name_set c.using_set) efpcolor) here ∙ file) count
        few in
    let run =
      start_configures lib (record h { catalog = c }) t
        (record { valid = held.valid; waits = held.waits; wrote = held.wrote }) sendable in
    (
      record (start before) { palette = q },
      ap
            (λ o. reads o λ (k : Catalog) (more : Lines).
              given
                (load_color k.using_set (start (send (pos 125 ∷ []) (record h { catalog = k }))))
                λ h'. goes top more h')
            listed
          ∙ ap (λ o. given o λ h'. goes top rest h') read,
      colors,
      ap (λ v. v.0) (view-start before lit),
      run,
    )
