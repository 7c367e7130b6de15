-- ===== src/Fleetsec/Phases/Covered.antt =====
-- Every node that Phase A has to leave to Phase B has one job (internal/fleetsec/job_handlers.go).
use Prim.Native.String.{String}
use text.Mathlib.Text.{◌==◌ as str_eq}
use diginode_cc.Prelude.{
  ℕ, ◌+◌, ◌≤◌, ◌≡◌, refl, true, false, ◌&&◌, ◌||◌, Option, some, List, [], ◌∷◌, All, ◌==◌, if-both,
  Bool-cases, inl, inr, arith,
}
use diginode_cc.Jobs.{Job, is_target, enqueue, has_pending_for}
use diginode_cc.Jobs.Pending.{pending_count, enqueue-count, has_pending_for-count}
use diginode_cc.Fleetsec.Phases.{
  RotationTarget, PhaseBPayload, PhaseA, rotate_phase_b, is_over, enqueue_target, enqueue_phase_b,
}

has_pending_for-enqueue :
    (kind : String) (n id now : ℕ) (k : String) (rotation target : Option ℕ) (payload : List ℕ)
    (rows : List Job)
    → has_pending_for kind n (enqueue id now k rotation target payload rows)
      ≡ has_pending_for kind n rows || (str_eq k kind && is_target n target)
unfolding has_pending_for enqueue
has_pending_for-enqueue kind n id now k rotation target payload [] = ground arith
has_pending_for-enqueue kind n id now k rotation target payload (j ∷ js) =
    ground (arith, has_pending_for-enqueue kind n id now k rotation target payload js)

module _ (encode : PhaseBPayload → List ℕ) (a : PhaseA) (id : ℕ → ℕ) where
  -- The target is the local node, or is done, or has a job of Phase B that waits or runs.
  abbrev pub IsCovered : List Job → RotationTarget → Type 0
  IsCovered rows t =
      t.node_num == a.local_num || is_over t.phase || has_pending_for rotate_phase_b t.node_num rows
      ≡ true

  abbrev payload : RotationTarget → PhaseBPayload
  payload t = record {
    staging_idx = a.staging_idx;
    old_slot = a.primary_slot;
    target_node_num = t.node_num;
  }

  new-count :
      (i n : ℕ) (t : RotationTarget) (rows : List Job)
      → has_pending_for rotate_phase_b t.node_num rows ≡ false
      → pending_count rotate_phase_b n rows ≤ 1
      → pending_count rotate_phase_b n (
          enqueue
            (id i)
            a.now
            rotate_phase_b
            (some a.rotation)
            (some t.node_num)
            (encode (payload t))
            rows)
        ≤ 1
  new-count i n t rows p h =
      let idle = has_pending_for-count rotate_phase_b t.node_num rows p in
      let added =
        enqueue-count rotate_phase_b n (id i) a.now rotate_phase_b (some a.rotation)
          (some t.node_num) (encode (payload t)) rows in
      elim (Bool-cases (t.node_num == n)) [
        | inl e ↦
            let same : t.node_num ≡ n = ground arith in
            let idle' : pending_count rotate_phase_b n rows ≡ 0 = rw same at idle in
            rw added (ground (arith, idle'))
        | inr e ↦ rw added (ground (arith, e, h))
      ]

  enqueue_target-pending :
      (i n : ℕ) (t : RotationTarget) (rows : List Job)
      → has_pending_for rotate_phase_b n rows ≡ true
      → has_pending_for rotate_phase_b n (enqueue_target encode a id i t rows) ≡ true
  unfolding enqueue_target
  enqueue_target-pending i n t rows h =
      let Kept = λ (r : List Job). has_pending_for rotate_phase_b n r ≡ true in
      if-both Kept (t.node_num == a.local_num) _ _ h (
        if-both Kept (is_over t.phase) _ _ h (
          if-both Kept (has_pending_for rotate_phase_b t.node_num rows) _ _ h (
            rw
              (
                has_pending_for-enqueue rotate_phase_b n (id i) a.now rotate_phase_b
                    (some a.rotation) (some t.node_num) (encode (payload t)) rows,
                h,
              )
              refl)))

  enqueue_target-IsCovered :
      (i : ℕ) (t : RotationTarget) (rows : List Job)
      → IsCovered (enqueue_target encode a id i t rows) t
  unfolding enqueue_target
  enqueue_target-IsCovered i t rows = elim (Bool-cases (t.node_num == a.local_num)) [
    | inl e ↦ rw e refl
    | inr e ↦ elim (Bool-cases (is_over t.phase)) [
      | inl o ↦ rw (e, o) refl
      | inr o ↦ elim (Bool-cases (has_pending_for rotate_phase_b t.node_num rows)) [
        | inl p ↦ rw (e, o, p) p
        | inr p ↦
            rw
              (
                e,
                o,
                p,
                has_pending_for-enqueue rotate_phase_b t.node_num (id i) a.now rotate_phase_b
                    (some a.rotation) (some t.node_num) (encode (payload t)) rows,
                p,
              )
              (ground arith)
      ]
    ]
  ]

  enqueue_target-count :
      (i n : ℕ) (t : RotationTarget) (rows : List Job)
      → pending_count rotate_phase_b n rows ≤ 1
      → pending_count rotate_phase_b n (enqueue_target encode a id i t rows) ≤ 1
  unfolding enqueue_target
  enqueue_target-count i n t rows h =
      let Few = λ (r : List Job). pending_count rotate_phase_b n r ≤ 1 in
      if-both Few (t.node_num == a.local_num) _ _ h (
        if-both Few (is_over t.phase) _ _ h
          (elim (Bool-cases (has_pending_for rotate_phase_b t.node_num rows)) [
            | inl p ↦ rw p h
            | inr p ↦ rw p (new-count i n t rows p h)
          ]))

  enqueue_phase_b-pending :
      (i n : ℕ) (ts : List RotationTarget) (rows : List Job)
      → has_pending_for rotate_phase_b n rows ≡ true
      → has_pending_for rotate_phase_b n (enqueue_phase_b encode a id i ts rows) ≡ true
  unfolding enqueue_phase_b
  enqueue_phase_b-pending i n [] rows h = h
  enqueue_phase_b-pending i n (t ∷ ts) rows h =
      enqueue_phase_b-pending (i + 1) n ts (enqueue_target encode a id i t rows)
        (enqueue_target-pending i n t rows h)

  enqueue_phase_b-All :
      (i : ℕ) (ts : List RotationTarget) (rows : List Job)
      → All (IsCovered (enqueue_phase_b encode a id i ts rows)) ts
  unfolding enqueue_phase_b
  enqueue_phase_b-All i [] rows = tt
  enqueue_phase_b-All i (t ∷ ts) rows =
      let after = enqueue_target encode a id i t rows in
      (
        ground (
          arith,
          enqueue_target-IsCovered i t rows,
          enqueue_phase_b-pending (i + 1) t.node_num ts after,
        ),
        enqueue_phase_b-All (i + 1) ts after,
      )

  enqueue_phase_b-count :
      (i n : ℕ) (ts : List RotationTarget) (rows : List Job)
      → pending_count rotate_phase_b n rows ≤ 1
      → pending_count rotate_phase_b n (enqueue_phase_b encode a id i ts rows) ≤ 1
  unfolding enqueue_phase_b
  enqueue_phase_b-count i n [] rows h = h
  enqueue_phase_b-count i n (t ∷ ts) rows h =
      enqueue_phase_b-count (i + 1) n ts (enqueue_target encode a id i t rows)
        (enqueue_target-count i n t rows h)

  -- If no node has two jobs of Phase B that wait or run, of whatever rotation, then after the loop of
  -- Phase A each target but the local node and those that are done has one, and still no node has
  -- two, even if the list names a node twice. Nothing else changes the queue meanwhile.
  pub enqueue_phase_b-IsCovered :
      (ts : List RotationTarget) (rows : List Job)
      → ((n : ℕ) → pending_count rotate_phase_b n rows ≤ 1)
      → All (IsCovered (enqueue_phase_b encode a id 0 ts rows)) ts
        × ((n : ℕ) → pending_count rotate_phase_b n (enqueue_phase_b encode a id 0 ts rows) ≤ 1)
  enqueue_phase_b-IsCovered ts rows one =
      (enqueue_phase_b-All 0 ts rows, λ n. enqueue_phase_b-count 0 n ts rows (one n))
