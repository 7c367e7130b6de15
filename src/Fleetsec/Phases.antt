-- ===== src/Fleetsec/Phases.antt =====
-- What Phase A of a rotation of keys leaves to do (internal/fleetsec/job_handlers.go): the loop of
-- `phaseAHandler.Run` that puts a job of Phase B into the queue for each target. What comes before
-- it, which reads the rotation and stages the new key on the local radio, is not modelled: its
-- results are arguments, and so are the ids that the database gives to the jobs, and the JSON of a
-- payload.
pub mod Covered
pub mod Light
mod Runs
use Prim.Native.String.{String}
use diginode_cc.Prelude.{ℕ, ◌+◌, Bool, true, false, none, some, List, [], ◌∷◌, ◌==◌, if◌then◌else◌}
use diginode_cc.Jobs.{Job, enqueue, has_pending_for}

pub data RotationPhase : Type 0 where
  pending pushing_b has_new_psk promoting_c on_new_psk retired failed_b failed_c : RotationPhase

-- `RotationTarget`, without its status, attempts and last error.
pub record RotationTarget : Type 0 where
  pub node_num : ℕ
  pub phase : RotationPhase

-- `PhaseBPayload`
pub record PhaseBPayload : Type 0 where
  pub staging_idx : ℕ
  pub old_slot : ℕ
  pub target_node_num : ℕ

abbrev pub rotate_phase_b : String
rotate_phase_b = "rotate_phase_b"

-- `t.Phase == PhaseOnNewPSK || t.Phase == PhaseRetired`
abbrev pub is_over : RotationPhase → Bool
is_over on_new_psk = true
is_over retired = true
is_over _ = false

-- What the loop is given: the time, the local node, the rotation and its two slots.
pub record PhaseA : Type 0 where
  pub now : ℕ
  pub local_num : ℕ
  pub rotation : ℕ
  pub staging_idx : ℕ
  pub primary_slot : ℕ

module _ (encode : PhaseBPayload → List ℕ) (a : PhaseA) (id : ℕ → ℕ) where
  -- The `i`-th round.
  unfoldable pub enqueue_target : ℕ → RotationTarget → List Job → List Job
  unfolding has_pending_for enqueue
  enqueue_target i t rows =
      if t.node_num == a.local_num
      then rows
      else if is_over t.phase
      then rows
      else if has_pending_for rotate_phase_b t.node_num rows
      then rows
      else enqueue (id i) a.now rotate_phase_b (some a.rotation) (some t.node_num)
          (encode (record {
            staging_idx = a.staging_idx;
            old_slot = a.primary_slot;
            target_node_num = t.node_num;
          }))
          rows

  -- The rounds from `i` on.
  unfoldable pub enqueue_phase_b : ℕ → List RotationTarget → List Job → List Job
  unfolding enqueue_target
  enqueue_phase_b i [] rows = rows
  enqueue_phase_b i (t ∷ ts) rows = enqueue_phase_b (i + 1) ts (enqueue_target i t rows)
