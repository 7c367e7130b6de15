-- ===== src/Jobs/Pending.antt =====
-- How many jobs of one kind wait or run for a node (internal/fleetsec/jobs/jobs.go).
use Prim.Native.String.{String}
use mathlib.Core.List.{Memᴰ}
use text.Mathlib.Text.{◌==◌ as str_eq}
use diginode_cc.Prelude.{
  ℕ, ◌+◌, ◌≤◌, ◌≡◌, refl, sym, ap, Bool, true, false, ◌&&◌, ◌||◌, Option, List, [], ◌∷◌, ◌++◌, All,
  All-intro, map, Bool-cases, inl, inr, arith,
}
use diginode_cc.Prelude.Sets.{contains, AreDistinct, append-AreDistinct}
use diginode_cc.Jobs.{
  Job, in_progress, is_queued, is_state, is_target, has_id, is_stale, update_where, enqueue,
  leased_row, lease_next, done_row, failed_row, cancelled_row, requeued_row, mark_done, mark_failed,
  cancel, resume_stale_leases, has_pending_for,
}
use diginode_cc.Jobs.Lease.{lease_next-IsOldest}

abbrev pub ids : List Job → List ℕ
ids = map (λ j. j.id)

module _ (kind : String) (target : ℕ) where
  abbrev pub is_pending : Job → Bool
  is_pending j =
      str_eq j.kind kind
      && is_target target j.target_node_num
      && (is_queued j || is_state j.state in_progress)

  abbrev pub weight : Bool → ℕ
  weight true = 1
  weight false = 0

  abbrev pub pending_count : List Job → ℕ
  pending_count [] = 0
  pending_count (j ∷ js) = weight (is_pending j) + pending_count js

  pub has_pending_for-count :
      (rows : List Job) → has_pending_for kind target rows ≡ false → pending_count rows ≡ 0
  unfolding has_pending_for
  has_pending_for-count [] h = refl
  has_pending_for-count (j ∷ js) h = elim (Bool-cases (is_pending j)) [
    | inl e ↦ ground (arith, e)
    | inr e ↦ rw e (omega (arith, has_pending_for-count js (rw e at h)))
  ]

  weight_le : (b c : Bool) → (b ≡ true → c ≡ true) → weight b ≤ weight c
  weight_le true c h = rw (h refl) (omega arith)
  weight_le false true h = omega arith
  weight_le false false h = omega arith

  -- An update that makes no job wait or run that did not.
  update_where-count :
      (test : Job → Bool) (set : Job → Job) (rows : List Job)
      → All (λ k. test k ≡ true → is_pending (set k) ≡ true → is_pending k ≡ true) rows
      → pending_count (update_where test set rows) ≤ pending_count rows
  unfolding update_where
  update_where-count test set [] h = omega arith
  update_where-count test set (k ∷ ks) (p, ps) =
      let rest = update_where-count test set ks ps in
      elim (Bool-cases (test k)) [
        | inl e ↦ rw e (omega (arith, rest, weight_le (is_pending (set k)) (is_pending k) (p e)))
        | inr e ↦ rw e (omega (arith, rest))
      ]

  update_where-ids :
      (test : Job → Bool) (set : Job → Job) (rows : List Job)
      → ((j : Job) → (set j).id ≡ j.id)
      → ids (update_where test set rows) ≡ ids rows
  unfolding update_where
  update_where-ids test set [] same = refl
  update_where-ids test set (k ∷ ks) same =
      let rest = update_where-ids test set ks same in
      elim (Bool-cases (test k)) [ inl e ↦ rw (e, same k, rest) refl | inr e ↦ rw (e, rest) refl ]

  -- The same ids, and no more jobs that wait or run.
  abbrev pub IsQuiet : List Job → List Job → Type 0
  IsQuiet rows rows' = (ids rows' ≡ ids rows) × (pending_count rows' ≤ pending_count rows)

  update_where-IsQuiet :
      (test : Job → Bool) (set : Job → Job)
      → ((j : Job) → (set j).id ≡ j.id)
      → ((k : Job) → test k ≡ true → is_pending (set k) ≡ true → is_pending k ≡ true)
      → (rows : List Job) → IsQuiet rows (update_where test set rows)
  update_where-IsQuiet test set same h rows =
      (update_where-ids test set rows same, update_where-count test set rows (All-intro h rows))

  pub mark_done-IsQuiet : (id now : ℕ) (rows : List Job) → IsQuiet rows (mark_done id now rows)
  unfolding mark_done done_row
  mark_done-IsQuiet id now =
      update_where-IsQuiet (has_id id) (done_row now) (λ j. refl) (λ k t h. ground (arith, h))

  pub mark_failed-IsQuiet :
      (id now : ℕ) (err : List ℕ) (rows : List Job) → IsQuiet rows (mark_failed id now err rows)
  unfolding mark_failed failed_row
  mark_failed-IsQuiet id now err =
      update_where-IsQuiet (has_id id) (failed_row now err) (λ j. refl) (λ k t h. ground (arith, h))

  pub cancel-IsQuiet : (id now : ℕ) (rows : List Job) → IsQuiet rows (cancel id now rows)
  unfolding cancel cancelled_row
  cancel-IsQuiet id now =
      update_where-IsQuiet (λ j. has_id id j && is_queued j) (cancelled_row now) (λ j. refl)
        (λ k t h. ground (arith, h))

  pub resume_stale_leases-IsQuiet :
      (cutoff : ℕ) (rows : List Job) → IsQuiet rows (resume_stale_leases cutoff rows)
  unfolding resume_stale_leases requeued_row
  resume_stale_leases-IsQuiet cutoff =
      update_where-IsQuiet (is_stale cutoff) requeued_row (λ j. refl)
        (λ k t h. ground (arith, t, h))

  others :
      (id : ℕ) (js : List Job)
      → contains id (ids js) ≡ false
      → All (λ k. has_id id k ≡ true → is_queued k ≡ true) js
  others id [] h = tt
  others id (k ∷ ks) h = ((λ e. absurd (ground arith)), others id ks (ground arith))

  mem-id : (j : Job) (js : List Job) → Memᴰ j js → contains j.id (ids js) ≡ true
  mem-id j [] m = elim m [ ]
  mem-id j (k ∷ ks) (Memᴰ.head e) =
      let same : j.id ≡ k.id = ap (λ i. i.id) e in ground (arith, same)
  mem-id j (k ∷ ks) (Memᴰ.tail m) = ground (arith, mem-id j ks m)

  -- Only the job itself has its id.
  only :
      (j : Job) (rows : List Job)
      → AreDistinct (ids rows)
      → Memᴰ j rows
      → is_queued j ≡ true
      → All (λ k. has_id j.id k ≡ true → is_queued k ≡ true) rows
  only j [] d m q = elim m [ ]
  only j (k ∷ ks) (new, d) (Memᴰ.head e) q = ((λ _. rw (sym e) q), others j.id ks (rw e new))
  only j (k ∷ ks) (new, d) (Memᴰ.tail m) q =
      let held = mem-id j ks m in ((λ e. absurd (grind (arith, held, new, e))), only j ks d m q)

  lease-allowed :
      (now worker : ℕ) (j : Job) (rows : List Job)
      → All (λ k. has_id j.id k ≡ true → is_queued k ≡ true) rows
      → All
          (λ k.
            has_id j.id k ≡ true
            → is_pending (leased_row now worker k) ≡ true
            → is_pending k ≡ true)
          rows
  unfolding leased_row
  lease-allowed now worker j [] h = tt
  lease-allowed now worker j (k ∷ ks) (p, ps) =
      ((λ e q. ground (arith, p e, q)), lease-allowed now worker j ks ps)

  pub lease_next-IsQuiet :
      (now worker : ℕ) (rows : List Job)
      → AreDistinct (ids rows)
      → IsQuiet rows (lease_next now worker rows).0
  unfolding leased_row
  lease_next-IsQuiet now worker rows d = elim (lease_next-IsOldest now worker rows) [
    | inl (idle, e) ↦ rw e (refl, omega arith)
    | inr (j, oldest, e) ↦ rw e (
      update_where-ids (has_id j.id) (leased_row now worker) rows (λ k. refl),
      update_where-count (has_id j.id) (leased_row now worker) rows
          (lease-allowed now worker j rows (only j rows d oldest.0 oldest.1)),
    )
  ]

  pub enqueue-count :
      (id now : ℕ) (k : String) (rotation t : Option ℕ) (payload : List ℕ) (rows : List Job)
      → pending_count (enqueue id now k rotation t payload rows)
        ≡ pending_count rows + weight (str_eq k kind && is_target target t)
  unfolding enqueue
  enqueue-count id now k rotation t payload [] = ground arith
  enqueue-count id now k rotation t payload (j ∷ js) =
      omega (arith, enqueue-count id now k rotation t payload js)

  pub enqueue-ids :
      (id now : ℕ) (k : String) (rotation t : Option ℕ) (payload : List ℕ) (rows : List Job)
      → ids (enqueue id now k rotation t payload rows) ≡ ids rows ++ (id ∷ [])
  unfolding enqueue
  enqueue-ids id now k rotation t payload [] = refl
  enqueue-ids id now k rotation t payload (j ∷ js) =
      ap (λ l. j.id ∷ l) (enqueue-ids id now k rotation t payload js)

  pub enqueue-AreDistinct :
      (id now : ℕ) (k : String) (rotation t : Option ℕ) (payload : List ℕ) (rows : List Job)
      → contains id (ids rows) ≡ false
      → AreDistinct (ids rows)
      → AreDistinct (ids (enqueue id now k rotation t payload rows))
  enqueue-AreDistinct id now k rotation t payload rows new d =
      rw (enqueue-ids id now k rotation t payload rows) (append-AreDistinct id (ids rows) new d)
