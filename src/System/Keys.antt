-- ===== src/System/Keys.antt =====
-- The keys of the main loop of Effect_Piano/Effect_Piano.cpp together keep the sketch of
-- Effect_Piano_v1.3.0.ino in step with the settings.
use mathlib.Core.Path.{subst}
use effect_piano_light_contr.Base.{
  ℕ, zero, suc, ◌+◌, ◌-◌, ◌≤◌, ◌<◌, ◌≡◌, refl, sym, Bool, true, false, ◌&&◌, some, if◌then◌else◌,
  arith,
}
use effect_piano_light_contr.Base.Int.{pos}
use effect_piano_light_contr.Host.State.{Host}
use effect_piano_light_contr.Host.Keys.{
  Keyboard, is_cool, ctrl, when, cool_key, color_key, background_key, color_keys, effect_key,
  clear_key, circle_key, ends_key, rainbow_key, contain_key, extend_key, remain_key,
  background_switch, switch_keys,
}
use effect_piano_light_contr.Sketch.State.{FastLed}
use effect_piano_light_contr.System.Agrees.{source, IsReady, Moves, Moves-trans, rests}
use effect_piano_light_contr.System.Moves.{
  clear-Moves, circle-Moves, ends-Moves, extend-Moves, remain-Moves,
}
use effect_piano_light_contr.System.Colors.{
  background_switch-Moves, background_key-Moves, color_key-Moves,
}

no_rainbow : (m : Bool) (h : Host) → m ≡ false → h.panel.on_rainbow ≡ false → rainbow_key m h ≡ h
unfolding rainbow_key
no_rainbow m h e f = simp (e, f)

module _ (lib : FastLed) (reach : ℕ) where
  when-Moves :
      (b : Bool) (f : Host → Host) (h : Host)
      → Moves lib reach h (f h)
      → Moves lib reach h (when b f h)
  when-Moves true f h m = m
  when-Moves false f h m = rests lib reach h

  cool-Moves :
      (k : Keyboard) (key : ℕ) (f : Host → Host) (h : Host)
      → Moves lib reach h (f h)
      → Moves lib reach h (cool_key k key f h)
  cool-Moves k key f h m = when-Moves (k.down key && is_cool h.panel.kbcd) f h m

  not_when :
      (a b : Bool) (f : Host → Host) (h : Host) → a ≡ false → Moves lib reach h (when (a && b) f h)
  not_when a b f h e = rw e (rests lib reach h)

  -- `M` is not down, and no rainbow is on.
  rainbow-Moves :
      (m : Bool) (h : Host)
      → m ≡ false
      → h.panel.on_rainbow ≡ false
      → Moves lib reach h (rainbow_key m h)
  rainbow-Moves m h e f = subst (Moves lib reach h) (sym (no_rainbow m h e f)) (rests lib reach h)

  digit-Moves :
      (chosen with_ctrl : Bool) (c : ℕ) (h : Host)
      → c < 10
      → IsReady reach (source h)
      → Moves lib reach h (
          if chosen
          then (if with_ctrl then background_key (pos c) h else color_key (pos c) h)
          else h)
  digit-Moves true true c h few r = background_key-Moves lib reach h (pos c) (c, few, refl) r
  digit-Moves true false c h few r = color_key-Moves lib reach h (pos c) (c, few, refl) r
  digit-Moves false w c h few r = rests lib reach h

  color_keys-Moves :
      (k : Keyboard) (n ch : ℕ) (h : Host)
      → 49 ≤ ch
      → ch + n ≤ 59
      → IsReady reach (source h)
      → Moves lib reach h (color_keys k n ch h)
  unfolding color_keys
  color_keys-Moves k zero ch h low high r = rests lib reach h
  color_keys-Moves k (suc n) ch h low high r =
      let m =
        digit-Moves (k.down ch && is_cool h.panel.kbcd) (ctrl k) (ch - 49) h (omega arith) r in
      Moves-trans lib reach m
        (color_keys-Moves k n (ch + 1) _ (omega arith) (omega arith) (m.ready r))

  last-Moves :
      (b c : Bool) (h : Host)
      → IsReady reach (source h)
      → (g : Host) × ((if b then remain_key h else some (when c background_switch h)) ≡ some g)
        × Moves lib reach h g
  last-Moves true c h r = remain-Moves lib reach h r
  last-Moves false c h r =
      (_, refl, when-Moves c background_switch h (background_switch-Moves lib reach h r))

  pub switch_keys-Moves :
      (k : Keyboard) (h : Host)
      → k.down b'M' ≡ false
      → k.down b'U' ≡ false
      → IsReady reach (source h)
      → (g : Host) × (switch_keys k h ≡ some g) × Moves lib reach h g
  unfolding switch_keys
  switch_keys-Moves k h m u r =
      let colored = color_keys-Moves k 10 49 h (omega arith) (omega arith) r in
      let g1 = color_keys k 10 49 h in
      let played =
        Moves-trans lib reach colored
          (not_when (k.down b'U') (is_cool g1.panel.kbecd) effect_key g1 u) in
      let g2 = when (k.down b'U' && is_cool g1.panel.kbecd) effect_key g1 in
      let cleared =
        Moves-trans lib reach played (cool-Moves k 8 clear_key g2 (clear-Moves lib reach g2)) in
      let g3 = cool_key k 8 clear_key g2 in
      let circled =
        Moves-trans lib reach cleared
          (cool-Moves k b'C' circle_key g3 (circle-Moves lib reach g3)) in
      let g4 = cool_key k b'C' circle_key g3 in
      let ended =
        Moves-trans lib reach circled (cool-Moves k b'V' ends_key g4 (ends-Moves lib reach g4)) in
      let g5 = cool_key k b'V' ends_key g4 in
      let rainbow =
        Moves-trans lib reach ended (rainbow-Moves (k.down b'M') g5 m ((ended.ready r).quiet)) in
      let g6 = rainbow_key (k.down b'M') g5 in
      let contained =
        Moves-trans lib reach rainbow
          (not_when (k.down b'M') (ctrl k && is_cool g6.panel.kbcd) contain_key g6 m) in
      let g7 = when (k.down b'M' && (ctrl k && is_cool g6.panel.kbcd)) contain_key g6 in
      let extended =
        Moves-trans lib reach contained
          (cool-Moves k b'Z' extend_key g7 (extend-Moves lib reach g7)) in
      let g8 = cool_key k b'Z' extend_key g7 in
      let (g, e, last) =
        last-Moves (k.down b'X' && is_cool g8.panel.kbcd) (k.down b'B' && is_cool g8.panel.kbcd) g8
          (extended.ready r) in
      (g, e, Moves-trans lib reach extended last)
