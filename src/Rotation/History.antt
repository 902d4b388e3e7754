-- ===== src/Rotation/History.antt =====
-- Runs of src/services/rotation-service.ts: any calls, in any order, with time passing between them.
use keylore.Prelude.{ℕ, ◌+◌, String, Option, List, [], ◌∷◌, Evolves, Evolves-refl, Evolves-trans}
use keylore.Domain.{AuthContext}
use keylore.Domain.Config.{KeyLoreConfig}
use keylore.Domain.Rotation.{
  RotationRun, RotationCompleteInput, RotationCreateInput, RotationPlanInput,
}
use keylore.World.{World}
use keylore.World.Host.{Host}
use keylore.Rotation.Table as Table
use keylore.Rotation.Service as Service
use keylore.Rotation.Plan as Plan
use keylore.Rotation.Lifecycle.{
  IsLegal, Follows, Follows-refl, Follows-trans, create-Evolves, transition-Evolves,
}
use keylore.Rotation.OneOpen.{OneOpen, create-OneOpen, transition-OneOpen}
use keylore.Rotation.Methods.{
  create_manual-Keeps, start-Keeps, complete-Keeps, fail-Keeps, plan_due-Keeps,
}

pub data Call : Type 0 where
  create_manual : AuthContext → RotationCreateInput → Call
  plan_due : AuthContext → Option RotationPlanInput → Call
  start : String → AuthContext → Option String → Call
  complete : String → AuthContext → RotationCompleteInput → Call
  fail : String → AuthContext → Option String → Call
  wait : ℕ → Call

module _ (host : Host) (config : KeyLoreConfig) where
  -- The state after a call; an exception leaves what was written.
  unfoldable pub perform : Call → World → World
  perform (create_manual context input) w = (Service.create_manual host config context input w).1
  perform (plan_due context input) w = (Plan.plan_due host config context input w).1
  perform (start id context note) w = (Service.start host config id context note w).1
  perform (complete id context input) w = (Service.complete host config id context input w).1
  perform (fail id context note) w = (Service.fail host config id context note w).1
  perform (wait ms) w = record w { now = w.now + ms }

  unfoldable pub run : List Call → World → World
  run [] w = w
  run (call ∷ calls) w = run calls (perform call w)

module _ (Q : List RotationRun → Type 0)
    (create_keeps : (r : RotationRun) (table : List RotationRun)
      → Q table
      → Q (Table.create r table).1)
    (move_keeps : (now : ℕ) (id : String) (update : Table.Transition) (table : List RotationRun)
      → IsLegal update
      → Q table
      → Q (Table.transition now id update table).1)
    (host : Host) (config : KeyLoreConfig) where
  perform_keeps :
      (call : Call) (w : World) → Q w.rotations → Q (perform host config call w).rotations
  unfolding perform
  perform_keeps (create_manual context input) w h =
      (create_manual-Keeps Q create_keeps move_keeps host config context input).at w h
  perform_keeps (plan_due context input) w h =
      (plan_due-Keeps Q create_keeps move_keeps host config context input).at w h
  perform_keeps (start id context note) w h =
      (start-Keeps Q create_keeps move_keeps host config id context note).at w h
  perform_keeps (complete id context input) w h =
      (complete-Keeps Q create_keeps move_keeps host config id context input).at w h
  perform_keeps (fail id context note) w h =
      (fail-Keeps Q create_keeps move_keeps host config id context note).at w h
  perform_keeps (wait ms) w h = h

  run_keeps :
      (calls : List Call) (w : World) → Q w.rotations → Q (run host config calls w).rotations
  unfolding run
  run_keeps [] w h = h
  run_keeps (call ∷ calls) w h =
      run_keeps calls (perform host config call w) (perform_keeps call w h)

module _ (host : Host) (config : KeyLoreConfig) (calls : List Call) (w : World) where
  -- Over any calls, each rotation run stands in the same place afterwards, for the same credential,
  -- tenant, source, due date and planner; its status went there by moves of the abstract machine, which
  -- starts pending runs and completes or fails open ones; and a run that was not open is unchanged.
  pub run_rotations-Evolves : Evolves Follows w.rotations (run host config calls w).rotations
  run_rotations-Evolves =
      run_keeps (Evolves Follows w.rotations)
        (λ r t h. Evolves-trans Follows _ _ _ Follows-trans h (create-Evolves r t))
        (λ now id u t legal h.
          Evolves-trans Follows _ _ _ Follows-trans h (transition-Evolves now id u t legal))
        host config calls w (Evolves-refl Follows w.rotations Follows-refl)

  -- If no credential has two open rotation runs, then none has after any calls.
  pub run_rotations-OneOpen : OneOpen w.rotations → OneOpen (run host config calls w).rotations
  run_rotations-OneOpen = run_keeps OneOpen create-OneOpen transition-OneOpen host config calls w
