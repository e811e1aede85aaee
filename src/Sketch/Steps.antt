-- ===== src/Sketch/Steps.antt =====
-- Runs of `loop ()` of Effect_Piano_v1.3.0.ino, command by command.
use effect_piano_light_contr.Base.{
  ℕ, zero, suc, ◌≤◌, ◌≡◌, refl, List, [], ◌∷◌, ◌++◌, append_assoc, length, length-append, arith,
}
use mathlib.Core.List.{map-append}
use effect_piano_light_contr.Base.{some}
use effect_piano_light_contr.Sketch.State.{FastLed, Sketch}
use effect_piano_light_contr.Sketch.Serial.{Polls, done, bytes}
use effect_piano_light_contr.Sketch.Commands.{decode}
use effect_piano_light_contr.Sketch.Loop.{run_command, ready, feed}

module _ (lib : FastLed) where
  -- In one round the sketch takes the byte `b` and the bytes `bs` behind it, and no more.
  pub record Obeys (s : Sketch) (b : ℕ) (bs : List ℕ) (s' : Sketch) : Type 0 where
    pub takes : (ps : Polls) → run_command lib (decode b) b s (bytes bs ++ ps) ≡ done s' ps

  pub data Steps : Sketch → List ℕ → Sketch → Type 0 where
    stop : (s : Sketch) → Steps s [] s
    step :
        {s t u : Sketch} (b : ℕ) (bs : List ℕ) {cs : List ℕ}
        → Obeys s b bs t
        → Steps t cs u
        → Steps s (b ∷ bs ++ cs) u

  pub Steps-append :
      {s t u : Sketch} {bs cs : List ℕ} → Steps s bs t → Steps t cs u → Steps s (bs ++ cs) u
  Steps-append (stop s) q = q
  Steps-append {cs = cs} (step b bs {cs = ds} o p) q =
      rw (append_assoc bs ds cs) (step b bs o (Steps-append p q))

  -- A run by steps is what `feed` computes, with a round for each byte or more.
  pub feed-Steps :
      {s s' : Sketch} {bs : List ℕ} (fuel : ℕ)
      → length bs ≤ fuel
      → Steps s bs s'
      → feed lib fuel s (bytes bs) ≡ ready s'
  unfolding feed
  feed-Steps zero few (stop s) = refl
  feed-Steps (suc fuel) few (stop s) = refl
  feed-Steps zero few (step b bs o p) = absurd (omega arith)
  feed-Steps (suc fuel) few (step b bs {cs = cs} o p) =
      rw (map-append some bs cs, o.takes (bytes cs), feed)
        (feed-Steps fuel (omega (arith, length-append bs cs)) p)
