-- ===== src/Fleetsec/Phases/Light.antt =====
-- How much Phase A puts into the queue (internal/fleetsec/job_handlers.go).
use Prim.Native.String.{String}
use diginode_cc.Prelude.{
  ℕ, ◌+◌, ◌*◌, ◌≤◌, Option, some, List, [], ◌∷◌, ◌==◌, length, if-both, arith,
}
use diginode_cc.Jobs.{Job, has_pending_for}
use diginode_cc.Jobs.Drain.{queued_weight, enqueue-weight}
use diginode_cc.Fleetsec.Phases.{
  RotationTarget, PhaseBPayload, PhaseA, rotate_phase_b, is_over, enqueue_target, enqueue_phase_b,
}

module _ (weigh : String → Option ℕ → ℕ) (encode : PhaseBPayload → List ℕ) (a : PhaseA)
    (id : ℕ → ℕ) where
  abbrev IsMore : List Job → List Job → Type 0
  IsMore rows rows' =
      queued_weight weigh rows' ≤ queued_weight weigh rows + weigh rotate_phase_b (some a.rotation)

  enqueue_target_le :
      (i : ℕ) (t : RotationTarget) (rows : List Job)
      → IsMore rows (enqueue_target encode a id i t rows)
  unfolding enqueue_target
  enqueue_target_le i t rows = if-both (IsMore rows) (t.node_num == a.local_num) _ _ (omega arith) (
      if-both (IsMore rows) (is_over t.phase) _ _ (omega arith) (
        if-both (IsMore rows) (has_pending_for rotate_phase_b t.node_num rows) _ _ (omega arith) (
          omega (
            arith,
            enqueue-weight weigh (id i) a.now rotate_phase_b (some a.rotation) (some t.node_num) _
                rows,
          ))))

  -- A job of Phase B for each target at most.
  pub enqueue_phase_b_le :
      (i : ℕ) (ts : List RotationTarget) (rows : List Job)
      → queued_weight weigh (enqueue_phase_b encode a id i ts rows)
        ≤ queued_weight weigh rows + length ts * weigh rotate_phase_b (some a.rotation)
  unfolding enqueue_phase_b
  enqueue_phase_b_le i [] rows = omega arith
  enqueue_phase_b_le i (t ∷ ts) rows = grind (
    arith,
    enqueue_target_le i t rows,
    enqueue_phase_b_le (i + 1) ts (enqueue_target encode a id i t rows),
  )
