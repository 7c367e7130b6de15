-- ===== src/Jobs/Runs.antt =====
-- Runs of the job queue of internal/fleetsec/jobs on a small table, and the theorems on it.
use Prim.Native.String.{String}
use text.Mathlib.Text.{◌==◌ as str_eq}
use diginode_cc.Prelude.{
  ℕ, ◌+◌, ◌<◌, ◌≡◌, refl, Bool, false, Option, none, some, List, [], ◌∷◌, All, ◌⊎◌, if◌then◌else◌,
  Bool-cases, inl, inr, arith,
}
use diginode_cc.Jobs.{
  Job, JobState, queued, done, cancelled, is_queued, has_id, enqueue, update_where, leased_row,
  leased_job, lease_next, cancel, resume_stale_leases, Handler, run_round,
}
use diginode_cc.Jobs.Lease.{IsOldest, IsClosedAt, lease_next-IsOldest, run_round-IsClosedAt}
use diginode_cc.Jobs.Invariant.{
  IsConsistent, start, step, enqueue_step, lease_step, resume_step, Reachable-IsConsistent,
}
use diginode_cc.Jobs.Drain.{queued_count, run_rounds, IsLight, queued_weight, run_rounds-drained}
use diginode_cc.Fleetsec.Phases.{
  RotationTarget, PhaseBPayload, PhaseA, pending, failed_b, enqueue_phase_b,
}
use diginode_cc.Fleetsec.Phases.Light.{enqueue_phase_b_le}

-- A job of the node 7 and, enqueued earlier, one of the node 8.
abbrev two_jobs : List Job
two_jobs =
    enqueue 2 30 "reset_node" none (some 8) [] (enqueue 1 40 "recover_stranded" none (some 7) [] [])

-- A table with one handler, which fails on the node 7 and leaves the table alone.
abbrev reset : Handler
reset j rows = (rows, none)

abbrev handlers : String → Option Handler
handlers kind = some reset

states : List Job → List (ℕ × JobState)
states [] = []
states (j ∷ js) = (j.id, j.state) ∷ states js

leases_older : states (lease_next 50 9 two_jobs).0 ≡ (1, queued) ∷ (2, JobState.in_progress) ∷ []
unfolding lease_next enqueue states
leases_older = refl

cancels_queued : states (cancel 1 60 two_jobs) ≡ (1, cancelled) ∷ (2, queued) ∷ []
unfolding cancel enqueue states
cancels_queued = refl

two_rounds : states (run_rounds handlers [] 9 (50 ∷ 60 ∷ []) two_jobs) ≡ (1, done) ∷ (2, done) ∷ []
unfolding run_rounds enqueue states
two_rounds = refl

lease_next-IsOldest_example :
    (All (λ k. is_queued k ≡ false) two_jobs × (lease_next 50 9 two_jobs ≡ (two_jobs, none)))
    ⊎ ((j : Job) × IsOldest two_jobs (some j)
        × (lease_next 50 9 two_jobs
            ≡ (update_where (has_id j.id) (leased_row 50 9) two_jobs, some (leased_job 50 9 j))))
lease_next-IsOldest_example = lease_next-IsOldest 50 9 two_jobs

run_round-IsClosedAt_example :
    (All (λ k. is_queued k ≡ false) two_jobs × (run_round handlers [] 9 50 two_jobs ≡ two_jobs))
    ⊎ ((j : Job) × IsOldest two_jobs (some j)
        × IsClosedAt j.id (run_round handlers [] 9 50 two_jobs))
run_round-IsClosedAt_example = run_round-IsClosedAt handlers [] 9 50 two_jobs

Reachable-IsConsistent_example :
    All IsConsistent (resume_stale_leases 70 (lease_next 50 9 two_jobs).0)
Reachable-IsConsistent_example = Reachable-IsConsistent (
    step
      (step
        (step (step start (enqueue_step 1 40 "recover_stranded" none (some 7) []))
          (enqueue_step 2 30 "reset_node" none (some 8) []))
        (lease_step 50 9))
      (resume_step 70))

-- The handler of Phase A runs its loop over the local node and two others; that of all other jobs
-- does nothing.
abbrev targets : List RotationTarget
targets =
    record { node_num = 4; phase = pending }
    ∷ record { node_num = 7; phase = pending }
    ∷ record { node_num = 8; phase = failed_b }
    ∷ []

abbrev encode : PhaseBPayload → List ℕ
encode p = p.target_node_num ∷ []

abbrev loop_of : ℕ → PhaseA
loop_of rotation = record {
  now = 70;
  local_num = 4;
  rotation = rotation;
  staging_idx = 1;
  primary_slot = 0;
}

abbrev phase_a_run : Option ℕ → List Job → List Job × Option (List ℕ)
phase_a_run none rows = (rows, some [])
phase_a_run (some rotation) rows =
    (enqueue_phase_b encode (loop_of rotation) (λ i. i + 10) 0 targets rows, none)

abbrev phase_a : Handler
phase_a j rows = phase_a_run j.rotation_id rows

abbrev is_phase_a : String → Bool
is_phase_a kind = str_eq kind "rotate_phase_a"

abbrev rotating : String → Option Handler
rotating kind = if is_phase_a kind then some phase_a else some reset

abbrev weigh : String → Option ℕ → ℕ
weigh kind rotation = if is_phase_a kind then 4 else 1

phase_a-light :
    (rotation : Option ℕ) (rows : List Job)
    → queued_weight weigh (phase_a_run rotation rows).0 < queued_weight weigh rows + 4
phase_a-light none rows = omega arith
phase_a-light (some rotation) rows =
    omega (arith, enqueue_phase_b_le weigh encode (loop_of rotation) (λ i. i + 10) 0 targets rows)

rotating-IsLight : (j : Job) → IsLight weigh (rotating j.kind) j
rotating-IsLight j = elim (Bool-cases (is_phase_a j.kind)) [
  | inl e ↦ rw e (λ rows. rw e (phase_a-light j.rotation_id rows))
  | inr e ↦ rw e (λ rows. rw e (omega arith))
]

abbrev rotation : List Job
rotation = enqueue 1 40 "rotate_phase_a" (some 5) none [] []

one_round :
    states (run_round rotating [] 9 50 rotation) ≡ (1, done) ∷ (11, queued) ∷ (12, queued) ∷ []
unfolding run_round enqueue enqueue_phase_b states
one_round = refl

run_rounds-drained_example :
    queued_count (run_rounds rotating [] 9 (50 ∷ 60 ∷ 70 ∷ 80 ∷ []) rotation) ≡ 0
unfolding enqueue
run_rounds-drained_example =
    run_rounds-drained weigh rotating [] rotating-IsLight 9 (50 ∷ 60 ∷ 70 ∷ 80 ∷ []) rotation
      (omega arith)
