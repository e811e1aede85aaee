-- ===== src/System/Twice.antt =====
-- The key of the background of Effect_Piano/Effect_Piano.cpp, twice: the colour in which the sketch
-- of Effect_Piano_v1.3.0.ino is left.
use mathlib.Core.Path.{subst}
use effect_piano_light_contr.Base.{
  ◌∙◌, ap, sym, ℕ, ◌≤◌, ◌≡◌, refl, Bool, true, false, List, [], ◌∷◌, ◌++◌, length, if◌then◌else◌,
  arith,
}
use effect_piano_light_contr.Base.Int.{pos, low_byte, is_zero}
use effect_piano_light_contr.Host.Link.Fifo.{Holds, emits}
use effect_piano_light_contr.Host.Palette.{Color}
use effect_piano_light_contr.Host.State.{Host, send, write_set}
use effect_piano_light_contr.Host.Lights.{mix, refresh_bg}
use effect_piano_light_contr.Host.Lights.Wire.{
  Pushes, Pushes-trans, send-Pushes, refresh_bg-Pushes, background_ints,
}
use effect_piano_light_contr.Host.Keys.{heat, save, background_switch}
use effect_piano_light_contr.Sketch.State.{FastLed, Sketch}
use effect_piano_light_contr.Sketch.Serial.{bytes}
use effect_piano_light_contr.Sketch.Loop.{feed, ready}
use effect_piano_light_contr.Sketch.Steps.{feed-Steps}
use effect_piano_light_contr.Sketch.Config.{config}
use effect_piano_light_contr.System.Sections.{Configures-trans, off_section}
use effect_piano_light_contr.System.Start.{IsSentColor, back_section}
use effect_piano_light_contr.System.Agrees.{mixed_host, mix_lit}
use effect_piano_light_contr.System.Mixing.{difference, front_color, ground_color}

abbrev with_back : Bool → Host → Host
with_back on h = record h { settings = record (h.settings) { on_background = on } }

-- The program with the background switched on, and off
abbrev lit : Host → Host
lit h = heat (save (refresh_bg (mixed_host (with_back true h))))

abbrev unlit : Host → Host
unlit h = heat (save (send (pos 103 ∷ []) (with_back false h)))

switch_on :
    (h : Host)
    → is_zero h.settings.bright_background ≡ false
    → h.settings.on_background ≡ false
    → background_switch h ≡ lit h
unfolding background_switch
switch_on h e off =
    ap (λ b. if b then unlit h else switched (mix h)) off ∙ ap switched (mix_lit h e)
  where
    switched : Bool × Host → Host
    switched (done, mixed) = heat (if done then save (refresh_bg (with_back true mixed)) else mixed)

switch_off : (h : Host) → h.settings.on_background ≡ true → background_switch h ≡ unlit h
unfolding background_switch
switch_off h on = ap (λ b. if b then unlit h else switched (mix h)) on
  where
    switched : Bool × Host → Host
    switched (done, mixed) = heat (if done then save (refresh_bg (with_back true mixed)) else mixed)

twice :
    (h : Host)
    → is_zero h.settings.bright_background ≡ false
    → h.settings.on_background ≡ false
    → background_switch (background_switch h) ≡ unlit (lit h)
unfolding refresh_bg write_set
twice h e off = ap background_switch (switch_on h e off) ∙ switch_off (lit h) refl

unlit_lit-Pushes :
    (h : Host)
    → Pushes 0 h.link (unlit (lit h)).link (background_ints (mixed_host h).palette ++ pos 103 ∷ [])
unfolding write_set
unlit_lit-Pushes h =
    Pushes-trans (refresh_bg-Pushes 0 (mixed_host (with_back true h)) (omega arith))
      (send-Pushes 0 (pos 103 ∷ []) _ (omega arith))

settings_unlit_lit : (h : Host) → (unlit (lit h)).settings ≡ (with_back false h).settings
unfolding write_set refresh_bg
settings_unlit_lit h = refl

-- The colour of the keys in front of the background
abbrev pub in_front : Host → Color
in_front h = difference (front_color h.settings h.palette) (ground_color h.settings h.palette)

-- In a state with the background off, its brightness not 0 and nothing waiting in the queue, if the
-- colours for the background are not 0 as bytes: the key of the background, twice, leaves the settings
-- as they were, and the sketch in front of `loop ()` with no background, but with the keys in the
-- difference of the colours of the keys and the background, and with the colour of the background kept
-- for the next time; nothing else that the program sets in the sketch has changed.
pub background_switch_twice :
    (lib : FastLed) (h : Host) {w : List ℕ} (t : Sketch)
    → Holds h.link [] w
    → is_zero h.settings.bright_background ≡ false
    → h.settings.on_background ≡ false
    → IsSentColor (ground_color h.settings h.palette)
    → IsSentColor (in_front h)
    → ((background_switch (background_switch h)).settings ≡ h.settings)
      × ((out : List ℕ) × (u : Sketch) × Holds
            (background_switch (background_switch h)).link
            []
            (w ++ out)
          × ((fuel : ℕ) → length out ≤ fuel → feed lib fuel t (bytes out) ≡ ready u)
          × (config u ≡ record (config t) {
            red = low_byte (in_front h).r;
            green = low_byte (in_front h).g;
            blue = low_byte (in_front h).b;
            back_red = low_byte (ground_color h.settings h.palette).r;
            back_green = low_byte (ground_color h.settings h.palette).g;
            back_blue = low_byte (ground_color h.settings h.palette).b;
            background = false;
          }))
background_switch_twice lib h {w} t held e off back front =
    let c =
      Configures-trans lib (λ d. record d { background = false })
        (back_section lib true (mixed_host h).palette t (λ _. back) (λ _. front))
        (off_section lib) in
    (
      ap (λ g. g.settings) (twice h e off)
          ∙ (settings_unlit_lit h ∙ subst (λ b. (with_back b h).settings ≡ h.settings) off refl),
      (
        emits (background_ints (mixed_host h).palette ++ pos 103 ∷ []),
        c.after,
        subst
            (λ (g : Host).
              Holds g.link [] (w ++ emits (background_ints (mixed_host h).palette ++ pos 103 ∷ [])))
            (sym (twice h e off)) ((unlit_lit-Pushes h).carry [] w (omega arith) held),
        λ fuel enough. feed-Steps lib fuel enough c.steps,
        c.set,
      ),
    )
