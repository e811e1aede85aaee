-- ===== src/System/Play.antt =====
-- The piano played while no key of the computer is down: what the rounds of the main loop of
-- Effect_Piano/Effect_Piano.cpp write, and the sketch of Effect_Piano_v1.3.0.ino.
use mathlib.Core.Path.{subst}
use effect_piano_light_contr.Sketch.Commands.{run_clear}
use effect_piano_light_contr.Sketch.Obeys.{clear-Obeys}
use effect_piano_light_contr.Base.{
  sym, refl, ◌≢◌, ◌∙◌, ℕ, ◌+◌, ◌*◌, ◌≤◌, ◌<◌, ◌≡◌, Bool, true, false, List, [], ◌∷◌, ◌++◌,
  append_assoc, length, Option, none, some, if◌then◌else◌, arith,
}
use effect_piano_light_contr.Base.Int.{ℤ, pos, ◌+ℤ◌, ◌-ℤ◌, leb_ℤ}
use effect_piano_light_contr.Host.Link.Fifo.{Holds, emits, send-Holds}
use effect_piano_light_contr.Host.State.{Host, send}
use effect_piano_light_contr.Host.Lights.Wire.{Pushes, Pushes-trans, send-Pushes, emits-append}
use effect_piano_light_contr.Host.Midi.{
  Message, is_heard, on_message, on_poll, on_timer, cool_down, round_end,
}
use effect_piano_light_contr.Sketch.State.{FastLed, Sketch, Crgb, Leds, crgb, set_ends, num_leds}
use effect_piano_light_contr.Sketch.Serial.{bytes}
use effect_piano_light_contr.Sketch.Loop.{feed, ready}
use effect_piano_light_contr.Sketch.Config.{config}
use effect_piano_light_contr.Sketch.Keys.Extent.{extent, IsSafe}
use effect_piano_light_contr.Sketch.Steps.{feed-Steps, step, stop}
use effect_piano_light_contr.Sketch.Orders.{
  AreOrders, none_more, one_more, key, fade, rainbow_on, orders-IsSafe,
}
use effect_piano_light_contr.System.Agrees.{nothing_goes}

-- The message is for a key of the sketch that has `e` LEDs on each side in range.
abbrev pub IsPlayable : ℕ → Option Message → Type 0
IsPlayable e none = Unit {0}
IsPlayable e (some m) =
    (k : ℕ) × (m.data1 ≡ k + 20) × (e + 1 ≤ k * 2) × (k * 2 + e < num_leds) × (k ≤ 87)

pub data ArePlayable (e : ℕ) : List (Option Message) → Type 0 where
  silence : ArePlayable e []
  then_play :
      {m : Option Message} {ms : List (Option Message)}
      → IsPlayable e m
      → ArePlayable e ms
      → ArePlayable e (m ∷ ms)

-- Rounds of the main loop behind the keys of the computer
abbrev pub rounds : List (Option Message) → Host → Host
rounds [] h = h
rounds (m ∷ ms) h = rounds ms (round_end m h)

AreOrders-append :
    {e : ℕ} {bs cs : List ℕ} → AreOrders e bs → AreOrders e cs → AreOrders e (bs ++ cs)
AreOrders-append none_more q = q
AreOrders-append {cs = cs} (one_more {b} {bs} {cs = ds} o p) q =
    rw (append_assoc bs ds cs) (one_more o (AreOrders-append p q))

-- From `h` to `h'` the program pushes orders.
record Writes (e : ℕ) (h h' : Host) : Type 0 where
  ints : List ℤ
  pushes : Pushes 0 h.link h'.link ints
  orders : AreOrders e (emits ints)

Writes-nothing : (e : ℕ) (h : Host) → Writes e h h
Writes-nothing e h = record { ints = []; pushes = nothing_goes h; orders = none_more }

Writes-trans : {e : ℕ} {g h i : Host} → Writes e g h → Writes e h i → Writes e g i
Writes-trans p q = record {
  ints = p.ints ++ q.ints;
  pushes = Pushes-trans p.pushes q.pushes;
  orders = rw (emits-append p.ints q.ints) (AreOrders-append p.orders q.orders);
}

if-Writes :
    {e : ℕ} {h : Host} (b : Bool) (x y : Host)
    → Writes e h x
    → Writes e h y
    → Writes e h (if b then x else y)
if-Writes true x y p q = p
if-Writes false x y p q = q

pub emits_key : (d k : ℕ) → d ≡ k + 20 → 1 ≤ k → k ≤ 87 → emits ((pos d -ℤ pos 20) ∷ []) ≡ k ∷ []
unfolding ◌-ℤ◌
emits_key d k e lo hi = ground arith

on_poll-Writes : (e : ℕ) (m : Option Message) (h : Host) → IsPlayable e m → Writes e h (on_poll m h)
unfolding on_poll on_message
on_poll-Writes e none h p = Writes-nothing e h
on_poll-Writes e (some m) h (k, at, lo, hi, top) =
    if-Writes (is_heard h.settings m.status) _ _
      (record {
        ints = (pos m.data1 -ℤ pos 20) ∷ [];
        pushes = send-Pushes 0 _ h.link (omega arith);
        orders =
            rw (emits_key m.data1 k at (omega arith) top) (one_more (key k lo hi top) none_more);
      })
      (Writes-nothing e h)

on_timer-Writes : (e : ℕ) (h : Host) → Writes e h (on_timer h)
unfolding on_timer
on_timer-Writes e h =
    if-Writes h.settings.on_remain _ _
      (if-Writes (leb_ℤ h.panel.rm_times (h.panel.rm_timer +ℤ pos 1)) _ _
        (record {
          ints = pos 100 ∷ [];
          pushes = send-Pushes 0 _ h.link (omega arith);
          orders = one_more fade none_more;
        })
        (record { ints = []; pushes = nothing_goes h; orders = none_more }))
      (Writes-nothing e h)

round_end-Writes :
    (e : ℕ) (m : Option Message) (h : Host) → IsPlayable e m → Writes e h (round_end m h)
unfolding round_end cool_down
round_end-Writes e m h p =
    if-Writes h.panel.contain_rainbow _ _
      (record {
        ints = pos 94 ∷ [];
        pushes = send-Pushes 0 _ h.link (omega arith);
        orders = one_more rainbow_on none_more;
      })
      (Writes-trans (cooled (on_poll-Writes e m (cool_down h) p))
        (on_timer-Writes e (on_poll m (cool_down h))))
  where
    cooled : {g : Host} → Writes e (cool_down h) g → Writes e h g
    cooled w = record { ints = w.ints; pushes = w.pushes; orders = w.orders }

rounds-Writes :
    (e : ℕ) (ms : List (Option Message)) (h : Host) → ArePlayable e ms → Writes e h (rounds ms h)
rounds-Writes e [] h silence = Writes-nothing e h
rounds-Writes e (m ∷ ms) h (then_play p ps) =
    Writes-trans (round_end-Writes e m h p) (rounds-Writes e ms (round_end m h) ps)

-- With nothing waiting in the queue, and a sketch that, if extension is on, lights at most `e` LEDs on
-- each side of a key and, if keys remain, lets them remain for a time that is not 0: whatever messages
-- come in the rounds of the main loop, behind the keys of the computer, if each is for a key that has
-- `e` LEDs on each side in range, the sketch takes all that the program writes, never leaves the range
-- of `leds` nor divides by 0, and is again such a sketch; nothing waits.
pub tune_stays_in_range :
    (lib : FastLed) (e : ℕ) (ms : List (Option Message)) (h : Host) {w : List ℕ} (s : Sketch)
    → Holds h.link [] w
    → ArePlayable e ms
    → IsSafe e (extent (config s))
    → (out : List ℕ) × (t : Sketch) × Holds (rounds ms h).link [] (w ++ out)
      × ((fuel : ℕ) → length out ≤ fuel → feed lib fuel s (bytes out) ≡ ready t)
      × IsSafe e (extent (config t))
tune_stays_in_range lib e ms h {w} s held playable safe =
    let p = rounds-Writes e ms h playable in
    let (t, steps, safe') = orders-IsSafe lib e s p.orders safe in
    (
      emits p.ints,
      t,
      p.pushes.carry [] w (omega arith) held,
      λ fuel enough. feed-Steps lib fuel enough steps,
      safe',
    )

emits_top : (d : ℕ) → d ≡ 108 → emits ((pos d -ℤ pos 20) ∷ []) ≡ 88 ∷ []
unfolding ◌-ℤ◌
emits_top d e = ground arith

-- `set_ends` sets nothing but the ends.
set_ends_others : (x : Crgb) (leds : Leds) (i : ℕ) → i ≢ 0 → i ≢ 177 → set_ends x leds i ≡ leds i
set_ends_others x leds i left right = ground arith

-- The highest key of a piano with 88 keys, heard with nothing waiting in the queue: the program writes
-- 88 for it, which is no key of the sketch but the command that clears all keys. If `FastLED.clear`
-- makes every LED black, no key is down behind it, the ring starts anew, every LED is black but the two
-- at the ends, which have their own colour if they are on, and this is what the strip shows; what the
-- program sets in the sketch has not changed.
pub top_key_clears :
    (lib : FastLed) (m : Message) (h : Host) {w : List ℕ} (t : Sketch)
    → Holds h.link [] w
    → ((l : Leds) (i : ℕ) → i < num_leds → lib.clear l i ≡ crgb 0 0 0)
    → is_heard h.settings m.status ≡ true
    → m.data1 ≡ 108
    → Holds (on_message m h).link [] (w ++ 88 ∷ [])
      × ((t' : Sketch) × (feed lib 1 t (bytes (88 ∷ [])) ≡ ready t')
          × ((k : ℕ) → t'.flag k ≡ false)
          × (t'.circle ≡ 0)
          × ((i : ℕ) → i < num_leds → i ≢ 0 → i ≢ 177 → t'.leds i ≡ crgb 0 0 0)
          × (t'.leds 0 ≡ (if t.flagz then crgb 140 154 255 else crgb 0 0 0))
          × (t'.leds 177 ≡ (if t.flagz then crgb 140 154 255 else crgb 0 0 0))
          × (t'.shown ≡ t'.leds)
          × (config t' ≡ config t))
unfolding on_message run_clear
top_key_clears lib m h {w} t held clears heard top = (
  subst (λ b. Holds (if b then send ((pos m.data1 -ℤ pos 20) ∷ []) h else h).link [] (w ++ 88 ∷ []))
      (sym heard)
      (rw (← emits_top m.data1 top) (send-Holds ((pos m.data1 -ℤ pos 20) ∷ []) (omega arith) held)),
  (
    run_clear lib t,
    feed-Steps lib 1 (omega arith) (step 88 [] (clear-Obeys lib t) (stop (run_clear lib t))),
    λ k. refl,
    refl,
    λ i small left right. set_ends_others _ (lib.clear t.leds) i left right ∙ clears t.leds i small,
    refl,
    refl,
    refl,
    refl,
  ),
)
