-- ===== src/Host/Keys/Runs.antt =====
-- A round of the main loop of Effect_Piano/Effect_Piano.cpp has a result.
use effect_piano_light_contr.Base.{
  ap, arith, ◌∙◌, ◌≡◌, ◌≤◌, ◌<◌, refl, ℕ, zero, suc, ◌+◌, Bool, true, false, not, ◌&&◌, [], ◌∷◌,
  Option, none, some, if◌then◌else◌, get_or, ltb,
}
use effect_piano_light_contr.Base.Int.{pos, pos_part}
use effect_piano_light_contr.Host.State.{Host, send}
use effect_piano_light_contr.Host.Midi.{Message, round_end}
use effect_piano_light_contr.Host.Keys.{
  Keyboard, Round, next, left, round, set_keys, preset_keys, switch_keys, ◌>>=◌,
}
use effect_piano_light_contr.Host.Keys.InOrder.{InOrder}
use effect_piano_light_contr.Host.Keys.Queue.{host_of, round-InOrder}

module _ (k : Keyboard) where
  -- The keys of the presets are not down.
  pub preset_keys_idle :
      (n i : ℕ) (h : Host)
      → i + n ≤ 6
      → ((j : ℕ) → j < 6 → k.down (get_or set_keys j 0) ≡ false)
      → preset_keys k n i h ≡ some h
  unfolding preset_keys
  preset_keys_idle zero i h few idle = refl
  preset_keys_idle (suc n) i h few idle =
      ap (λ o. o >>= preset_keys k n (i + 1))
        (step_idle (not (ltb i 6)) (k.down (get_or set_keys i 0)) h _ (ground arith)
          (idle i (omega arith)))
      ∙ preset_keys_idle n (i + 1) h (omega arith) idle
    where
      step_idle :
          (past down : Bool) (g : Host) (m : Option Host)
          → past ≡ false
          → down ≡ false
          → (if past then none else if down then m else some g) ≡ some g
      step_idle past down g m e f = rw (e, f)

  and_left : (a b : Bool) → a ≡ false → a && b ≡ false
  and_left a b e = rw e

  else_runs :
      {b : Bool} (m : Option Host) (g : Host)
      → b ≡ false
      → (out : Host) × ((if b then m else some g) ≡ some out)
  else_runs m g e = (g, rw e)

  switch_keys_runs : (h : Host) → k.down b'X' ≡ false → (g : Host) × (switch_keys k h ≡ some g)
  unfolding switch_keys
  switch_keys_runs h e = else_runs _ _ (and_left _ _ e)

  round_goes :
      (b c : Bool) (l h : Host) (p : Option Host) (q : Host → Option Host) (f : Host → Host)
      → p ≡ some h
      → (g : Host) × (q h ≡ some g)
      → (r : Round) × ((if b
            then some (left l)
            else (if c then p >>= q else some h) >>= λ h'. some (next (f h')))
          ≡ some r)
  round_goes true c l h p q f e s = (left l, refl)
  round_goes false false l h p q f e s = (next (f h), refl)
  round_goes false true l h p q f e (g, s) = (
    next (f g),
    ap (λ o. (o >>= q) >>= λ h'. some (next (f h'))) e ∙ ap (λ o. o >>= λ h'. some (next (f h'))) s,
  )

-- From a state with the queue in order and at most 6 presets, while neither `X` nor the key of a
-- preset is down, a round of the main loop has a result, and leaves the queue in order.
pub round_runs :
    (k : Keyboard) (m : Option Message) {h : Host}
    → InOrder h
    → pos_part h.catalog.num_set ≤ 6
    → k.down b'X' ≡ false
    → ((j : ℕ) → j < 6 → k.down (get_or set_keys j 0) ≡ false)
    → (r : Round) × (round k m h ≡ some r) × InOrder (host_of r)
unfolding round
round_runs k m {h} v few dark idle =
    let (r, e) =
      round_goes k (k.capslock && k.down 27) k.capslock (send (pos 125 ∷ []) h) h
        (preset_keys k (pos_part h.catalog.num_set) 0 h) (switch_keys k) (round_end m)
        (preset_keys_idle k (pos_part h.catalog.num_set) 0 h (omega arith) idle)
        (switch_keys_runs k h dark) in
    (r, e, round-InOrder k m v e)
