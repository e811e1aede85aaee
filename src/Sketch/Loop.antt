-- ===== src/Sketch/Loop.antt =====
-- `loop ()` of Effect_Piano_v1.3.0.ino, and how it takes in a stream of bytes.
use effect_piano_light_contr.Base.{ℕ, zero, suc, true, false, Option, none, some}
use effect_piano_light_contr.Sketch.State.{FastLed, Sketch}
use effect_piano_light_contr.Sketch.Serial.{
  Polls, done, blocked, fault, Serial, ◌>>=◌, pure, wait_byte,
}
use effect_piano_light_contr.Sketch.Commands.{
  Command, decode, clear, circle_off, circle_on, change_color, ends_off, ends_on, set_brightness,
  rainbow_on, rainbow_off, extend_on, extend_off, remain_on, remain_off, reset, background_on,
  background_off, other, run_clear, run_background_on, run_background_off, run_circle_off,
  run_circle_on, run_change_color, run_ends, run_set_brightness, run_extend_on, run_remain_on,
  setup,
}
use effect_piano_light_contr.Sketch.Keys.{run_rest}

abbrev pub lift : Option Sketch → Serial Sketch
lift none ps = fault
lift (some s) ps = done s ps

module _ (lib : FastLed) where
  -- `default`, and what stands behind the `switch`
  abbrev pub run_default : ℕ → Sketch → Serial Sketch
  run_default num s = lift (run_rest lib num s)

  -- The `switch`; a case that ends in `break` goes on to what stands behind it.
  unfoldable pub run_command : Command → ℕ → Sketch → Serial Sketch
  run_command clear num s = pure (run_clear lib s)
  run_command circle_off num s = pure (run_circle_off s)
  run_command circle_on num s = pure (run_circle_on s)
  run_command change_color num s = run_change_color s
  run_command ends_off num s = pure (run_ends false s)
  run_command ends_on num s = pure (run_ends true s)
  run_command set_brightness num s = run_set_brightness s
  run_command rainbow_on num s = lift (run_rest lib num (record s { rbstatus = true }))
  run_command rainbow_off num s =
      lift (run_rest lib num (record s { rbstatus = false; rb_refresh = true }))
  run_command extend_on num s = run_extend_on s
  run_command extend_off num s = pure (record s { extend = false })
  run_command remain_on num s = run_remain_on s
  run_command remain_off num s = pure (record s { rm_status = false })
  run_command reset num s = setup s
  run_command background_on num s = run_background_on lib s
  run_command background_off num s = pure (run_background_off lib s)
  run_command other num s = run_default num s

  unfoldable pub loop : Sketch → Serial Sketch
  unfolding wait_byte decode run_command
  loop s = do num ← wait_byte; run_command (decode num) num s

-- Where the sketch stands after the calls of `Serial.read ()` that are given: in front of `loop ()`,
-- waiting inside a command, or at a fault.
pub data Stop : Type 0 where
  ready : Sketch → Stop
  inside : Stop
  broken : Stop

module _ (lib : FastLed) where
  -- `loop ()` over and over. Each round takes a byte, so as many rounds as polls are enough.
  unfoldable pub feed : ℕ → Sketch → Polls → Stop
  unfolding wait_byte
  feed zero s ps = ready s
  feed (suc n) s ps = elim (wait_byte ps) [
    | done num rest ↦ elim (run_command lib (decode num) num s rest) [
      | done s' rest' ↦ feed n s' rest'
      | blocked ↦ inside
      | fault ↦ broken
    ]
    | blocked ↦ ready s
    | fault ↦ broken
  ]
