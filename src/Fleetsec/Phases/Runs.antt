-- ===== src/Fleetsec/Phases/Runs.antt =====
-- Runs of the loop of Phase A, and the theorem on them.
use diginode_cc.Prelude.{ℕ, ◌≤◌, ◌≡◌, refl, List, [], ◌∷◌, All, arith, Option, some, map}
use diginode_cc.Jobs.{Job, enqueue}
use diginode_cc.Jobs.Pending.{pending_count}
use diginode_cc.Fleetsec.Phases.{
  RotationTarget, PhaseBPayload, PhaseA, RotationPhase, pending, has_new_psk, on_new_psk, failed_b,
  rotate_phase_b, enqueue_phase_b,
}
use diginode_cc.Fleetsec.Phases.Covered.{IsCovered, enqueue_phase_b-IsCovered}

abbrev encode : PhaseBPayload → List ℕ
encode p = p.target_node_num ∷ []

abbrev phase_a : PhaseA
phase_a = record { now = 50; local_num = 4; rotation = 5; staging_idx = 1; primary_slot = 0 }

abbrev id : ℕ → ℕ
id i = i

abbrev target : ℕ → RotationPhase → RotationTarget
target node phase = record { node_num = node; phase = phase }

-- The local node, two that have to change, one of them twice, one that is done, and one with a job.
abbrev targets : List RotationTarget
targets =
    target 4 pending
    ∷ target 7 pending
    ∷ target 8 failed_b
    ∷ target 7 pending
    ∷ target 9 on_new_psk
    ∷ target 6 has_new_psk
    ∷ []

abbrev waiting : List Job
waiting = enqueue 90 40 rotate_phase_b (some 3) (some 6) [] []

two_more :
    map {B = ℕ × Option ℕ}
      (λ j. (j.id, j.target_node_num))
      (enqueue_phase_b encode phase_a id 0 targets waiting)
    ≡ (90, some 6) ∷ (1, some 7) ∷ (2, some 8) ∷ []
unfolding enqueue_phase_b enqueue
two_more = refl

waiting-count : (n : ℕ) → pending_count rotate_phase_b n waiting ≤ 1
unfolding enqueue
waiting-count n = ground arith

enqueue_phase_b-IsCovered_example :
    All (IsCovered encode phase_a id (enqueue_phase_b encode phase_a id 0 targets waiting)) targets
    × ((n : ℕ)
        → pending_count rotate_phase_b n (enqueue_phase_b encode phase_a id 0 targets waiting) ≤ 1)
enqueue_phase_b-IsCovered_example =
    enqueue_phase_b-IsCovered encode phase_a id targets waiting waiting-count
