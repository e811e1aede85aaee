-- ===== src/Sketch/Orders.antt =====
-- The commands and keys that keep the sketch of Effect_Piano_v1.3.0.ino away from every access out of
-- range of `leds` and every division by 0.
use mathlib.Core.Path.{subst}
use effect_piano_light_contr.Base.{
  ap, ◌∙◌, sym, ℕ, ◌+◌, ◌*◌, ◌≤◌, ◌<◌, ◌≡◌, ◌≢◌, refl, true, false, List, [], ◌∷◌, ◌++◌, length,
  arith,
}
use effect_piano_light_contr.Sketch.State.{FastLed, Sketch, num_leds}
use effect_piano_light_contr.Sketch.Serial.{bytes}
use effect_piano_light_contr.Sketch.Commands.{
  other, decode, setup_begin, setup_end, breathe, run_clear, run_circle_on, run_circle_off,
  run_ends, run_background_off,
}
use effect_piano_light_contr.Sketch.Keys.{run_rest}
use effect_piano_light_contr.Sketch.Config.{config}
use effect_piano_light_contr.Sketch.Keys.Extent.{extent, IsSafe, run_rest_runs}
use effect_piano_light_contr.Sketch.Loop.{lift, run_command, feed, ready}
use effect_piano_light_contr.Sketch.Steps.{Obeys, Steps, stop, step, feed-Steps}
use effect_piano_light_contr.Sketch.Obeys.{
  clear-Obeys, circle_on-Obeys, circle_off-Obeys, ends_on-Obeys, ends_off-Obeys, extend_off-Obeys,
  remain_off-Obeys, background_off-Obeys, extend_on-Obeys, remain_on-Obeys, brightness-Obeys,
  color-Obeys, background_on-Obeys, reset-Obeys,
}

-- A command byte with its arguments, or the byte of a key: at most `e` LEDs are asked for on each side
-- of a key, the time for which keys remain is not 0, and `e` LEDs on each side of a key are in range.
pub data IsOrder (e : ℕ) : ℕ → List ℕ → Type 0 where
  clears : IsOrder e 88 []
  circle_off : IsOrder e 90 []
  circle_on : IsOrder e 91 []
  color : (r g b : ℕ) → IsOrder e 89 (r ∷ g ∷ b ∷ [])
  ends_off : IsOrder e 97 []
  ends_on : IsOrder e 92 []
  brightness : (n : ℕ) → IsOrder e 93 (n ∷ [])
  rainbow_on : IsOrder e 94 []
  rainbow_off : IsOrder e 95 []
  extend_on : (n : ℕ) → n ≤ e → IsOrder e 96 (n ∷ [])
  extend_off : IsOrder e 101 []
  remain_on : (n : ℕ) → n ≢ 0 → IsOrder e 98 (n ∷ [])
  remain_off : IsOrder e 99 []
  reset : IsOrder e 125 (127 ∷ [])
  background_on : (r g b : ℕ) → IsOrder e 102 (r ∷ g ∷ b ∷ [])
  background_off : IsOrder e 103 []
  fade : IsOrder e 100 []
  wake : IsOrder e 127 []
  key : (k : ℕ) → e + 1 ≤ k * 2 → k * 2 + e < num_leds → k ≤ 87 → IsOrder e k []

pub data AreOrders (e : ℕ) : List ℕ → Type 0 where
  none_more : AreOrders e []
  one_more : {b : ℕ} {bs cs : List ℕ} → IsOrder e b bs → AreOrders e cs → AreOrders e (b ∷ bs ++ cs)

module _ (lib : FastLed) (e : ℕ) where
  -- The bytes that go on to what stands behind the `switch`, in the state `u`
  pub rest-Obeys :
      (b : ℕ) (s u : Sketch)
      → run_command lib (decode b) b s ≡ lift (run_rest lib b u)
      → IsSafe e (extent (config u))
      → (2 ≤ b → b ≤ 87 → (e + 1 ≤ b * 2) × (b * 2 + e < num_leds))
      → (t : Sketch) × Obeys lib s b [] t × (config t ≡ config u)
  rest-Obeys b s u d safe far =
      let (t, run, same) = run_rest_runs lib e b u safe far in
      (t, record { takes = λ ps. ap (λ f. f ps) d ∙ ap (λ o. lift o ps) run }, same)

  rest-IsSafe :
      {b : ℕ} (s u : Sketch)
      → IsSafe e (extent (config u))
      → (t : Sketch) × Obeys lib s b [] t × (config t ≡ config u)
      → (t : Sketch) × Obeys lib s b [] t × IsSafe e (extent (config t))
  rest-IsSafe s u safe (t, o, same) = (t, o, subst (λ c. IsSafe e (extent c)) (sym same) safe)

  -- A key is no command.
  key_other : (k : ℕ) → k ≤ 87 → decode k ≡ other
  unfolding decode
  key_other k h = ground arith

  -- The byte of a key
  pub key-Obeys :
      (k : ℕ) (s : Sketch)
      → e + 1 ≤ k * 2
      → k * 2 + e < num_leds
      → k ≤ 87
      → IsSafe e (extent (config s))
      → (t : Sketch) × Obeys lib s k [] t × (config t ≡ config s)
  unfolding run_command
  key-Obeys k s lo hi top safe =
      rest-Obeys k s s (ap (λ c. run_command lib c k s) (key_other k top)) safe (λ _ _. (lo, hi))

  order-IsSafe :
      {b : ℕ} {bs : List ℕ} (s : Sketch)
      → IsOrder e b bs
      → IsSafe e (extent (config s))
      → (t : Sketch) × Obeys lib s b bs t × IsSafe e (extent (config t))
  unfolding run_clear run_circle_on run_circle_off run_ends run_background_off setup_end breathe
      setup_begin decode run_command
  order-IsSafe s clears safe = (_, clear-Obeys lib s, safe)
  order-IsSafe s circle_off safe = (_, circle_off-Obeys lib s, safe)
  order-IsSafe s circle_on safe = (_, circle_on-Obeys lib s, safe)
  order-IsSafe s (color r g b) safe =
      let (t, o, same) = color-Obeys lib s r g b in
      (t, o, subst (IsSafe e) (sym (ap (λ u. extent (config u)) same)) safe)
  order-IsSafe s ends_off safe = (_, ends_off-Obeys lib s, safe)
  order-IsSafe s ends_on safe = (_, ends_on-Obeys lib s, safe)
  order-IsSafe s (brightness n) safe = (_, brightness-Obeys lib s n, safe)
  order-IsSafe s rainbow_on safe =
      rest-IsSafe s (record s { rbstatus = true }) safe
        (rest-Obeys 94 s (record s { rbstatus = true }) refl safe (λ lo hi. absurd (omega arith)))
  order-IsSafe s rainbow_off safe =
      rest-IsSafe s (record s { rbstatus = false; rb_refresh = true }) safe
        (rest-Obeys 95 s (record s { rbstatus = false; rb_refresh = true }) refl safe
          (λ lo hi. absurd (omega arith)))
  order-IsSafe s (extend_on n few) safe =
      (_, extend_on-Obeys lib s n, record { reach = λ _. few; time = safe.time })
  order-IsSafe s extend_off safe =
      (_, extend_off-Obeys lib s, record { reach = λ x. cc; time = safe.time })
  order-IsSafe s (remain_on n some_time) safe =
      (_, remain_on-Obeys lib s n, record { reach = safe.reach; time = λ _. some_time })
  order-IsSafe s remain_off safe =
      (_, remain_off-Obeys lib s, record { reach = safe.reach; time = λ x. cc })
  order-IsSafe s reset safe = (_, reset-Obeys lib s, safe)
  order-IsSafe s (background_on r g b) safe = (_, background_on-Obeys lib s r g b, safe)
  order-IsSafe s background_off safe = (_, background_off-Obeys lib s, safe)
  order-IsSafe s fade safe =
      rest-IsSafe s s safe (rest-Obeys 100 s s refl safe (λ lo hi. absurd (omega arith)))
  order-IsSafe s wake safe =
      rest-IsSafe s s safe (rest-Obeys 127 s s refl safe (λ lo hi. absurd (omega arith)))
  order-IsSafe s (key k lo hi top) safe = rest-IsSafe s s safe (key-Obeys k s lo hi top safe)

  pub orders-IsSafe :
      {bs : List ℕ} (s : Sketch)
      → AreOrders e bs
      → IsSafe e (extent (config s))
      → (t : Sketch) × Steps lib s bs t × IsSafe e (extent (config t))
  orders-IsSafe s none_more safe = (s, stop s, safe)
  orders-IsSafe s (one_more {b} {bs} o more) safe =
      let (t, obeys, safe') = order-IsSafe s o safe in
      let (u, steps, safe'') = orders-IsSafe t more safe' in (u, step b bs obeys steps, safe'')

-- From a state in which, if extension is on, at most `e` LEDs are lit on each side of a key, and keys,
-- if they remain, do so for a time that is not 0: no sequence of orders, in which at most `e` LEDs are
-- asked for on each side of a key, the times for which keys remain are not 0, and each key has `e` LEDs
-- on each side in range, brings the sketch out of range of `leds` or to a division by 0. It takes all
-- the bytes, is in front of `loop ()`, and the state is again such a one.
pub orders_stay_in_range :
    (lib : FastLed) (e fuel : ℕ) {bs : List ℕ} (s : Sketch)
    → AreOrders e bs
    → IsSafe e (extent (config s))
    → length bs ≤ fuel
    → (t : Sketch) × (feed lib fuel s (bytes bs) ≡ ready t) × IsSafe e (extent (config t))
orders_stay_in_range lib e fuel s orders safe enough =
    let (t, steps, safe') = orders-IsSafe lib e s orders safe in
    (t, feed-Steps lib fuel enough steps, safe')
