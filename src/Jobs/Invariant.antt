-- ===== src/Jobs/Invariant.antt =====
-- What the rows of the queue's table say in each state of a job (internal/fleetsec/jobs/jobs.go),
-- and the steps that change the table.
use Prim.Native.String.{String}
use diginode_cc.Prelude.{
  ℕ, ◌≤◌, ◌≡◌, refl, Bool, true, false, ◌&&◌, Option, none, some, List, [], ◌∷◌, ◌++◌, All, arith,
}
use diginode_cc.Jobs.{
  Job, JobState, queued, in_progress, done, failed, cancelled, is_queued, has_id, is_state,
  is_stale, enqueue, oldest_queued, leased_row, lease_found, lease_next, done_row, failed_row,
  cancelled_row, requeued_row, mark_done, mark_failed, cancel, resume_stale_leases,
}
use diginode_cc.Jobs.Lease.{update_where-All}

abbrev pub has {ℓ} : {A : Type ℓ} → Option A → Bool
has none = false
has (some a) = true

-- The columns that the state of a job determines: only a job under way or closed by a worker has
-- one, only a closed job has a finishing time, a failed job has an error and a job that is under
-- way or done has none, and a job that was leased has been attempted.
abbrev pub StateColumns : JobState → Job → Type 0
StateColumns queued j = (j.worker_id ≡ none) × (j.finished_at ≡ none)
StateColumns in_progress j =
    (has j.worker_id ≡ true)
    × (has j.started_at ≡ true)
    × (j.finished_at ≡ none)
    × (j.last_error ≡ none)
    × (1 ≤ j.attempts)
StateColumns done j = (has j.finished_at ≡ true) × (j.last_error ≡ none)
StateColumns failed j = (has j.finished_at ≡ true) × (has j.last_error ≡ true)
StateColumns cancelled j = (has j.finished_at ≡ true) × (j.worker_id ≡ none)

abbrev pub IsConsistent : Job → Type 0
IsConsistent j = StateColumns j.state j

-- The statements that change the table, at any ids and times: `MarkDone` and `MarkFailed` may be
-- late, and several workers and operators may take turns.
pub data Step (rows : List Job) : List Job → Type 0 where
  enqueue_step :
      (id now : ℕ) (kind : String) (rotation target : Option ℕ) (payload : List ℕ)
      → Step rows (enqueue id now kind rotation target payload rows)
  lease_step : (now worker : ℕ) → Step rows (lease_next now worker rows).0
  done_step : (id now : ℕ) → Step rows (mark_done id now rows)
  failed_step : (id now : ℕ) (err : List ℕ) → Step rows (mark_failed id now err rows)
  cancel_step : (id now : ℕ) → Step rows (cancel id now rows)
  resume_step : (cutoff : ℕ) → Step rows (resume_stale_leases cutoff rows)

-- The tables that the steps make of an empty one.
pub data Reachable : List Job → Type 0 where
  start : Reachable []
  step : {rows rows' : List Job} → Reachable rows → Step rows rows' → Reachable rows'

append-All :
    (rows : List Job) (j : Job)
    → All IsConsistent rows
    → IsConsistent j
    → All IsConsistent (rows ++ (j ∷ []))
append-All [] j h p = (p, tt)
append-All (k ∷ ks) j (q, qs) p = (q, append-All ks j qs p)

-- The columns that a re-queued and a cancelled row keep.
under_way_columns :
    (s : JobState) (j : Job) (late : Bool)
    → StateColumns s j
    → is_state s in_progress && late ≡ true
    → j.finished_at ≡ none
under_way_columns in_progress j late (w, t, f, e, a) h = f
under_way_columns queued j late c h = ground arith
under_way_columns done j late c h = ground arith
under_way_columns failed j late c h = ground arith
under_way_columns cancelled j late c h = ground arith

waiting_columns :
    (s : JobState) (j : Job) (hit : Bool)
    → StateColumns s j
    → hit && is_state s queued ≡ true
    → j.worker_id ≡ none
waiting_columns queued j hit (w, f) h = w
waiting_columns in_progress j hit c h = ground arith
waiting_columns done j hit c h = ground arith
waiting_columns failed j hit c h = ground arith
waiting_columns cancelled j hit c h = ground arith

requeued_row-IsConsistent :
    (cutoff : ℕ) (j : Job)
    → IsConsistent j
    → is_stale cutoff j ≡ true
    → IsConsistent (requeued_row j)
unfolding requeued_row
requeued_row-IsConsistent cutoff j h stale = (refl, under_way_columns j.state j _ h stale)

lease_found-IsConsistent :
    (now worker : ℕ) (rows : List Job) (o : Option Job)
    → All IsConsistent rows
    → All IsConsistent (lease_found now worker rows o).0
unfolding lease_found leased_row
lease_found-IsConsistent now worker rows none h = h
lease_found-IsConsistent now worker rows (some j) h =
    update_where-All IsConsistent IsConsistent (has_id j.id) (leased_row now worker)
      (λ k _ _. (refl, refl, refl, refl, omega arith)) (λ k p _. p) rows h

-- Every step keeps the columns of every row consistent with its state.
pub Step-IsConsistent :
    {rows rows' : List Job} → Step rows rows' → All IsConsistent rows → All IsConsistent rows'
unfolding enqueue lease_next mark_done mark_failed cancel resume_stale_leases done_row failed_row
    cancelled_row
Step-IsConsistent {rows} (enqueue_step id now kind rotation target payload) h =
    append-All rows _ h (refl, refl)
Step-IsConsistent {rows} (lease_step now worker) h =
    lease_found-IsConsistent now worker rows (oldest_queued rows) h
Step-IsConsistent {rows} (done_step id now) h =
    update_where-All IsConsistent IsConsistent (has_id id) (done_row now) (λ k _ _. (refl, refl))
      (λ k p _. p) rows h
Step-IsConsistent {rows} (failed_step id now err) h =
    update_where-All IsConsistent IsConsistent (has_id id) (failed_row now err)
      (λ k _ _. (refl, refl)) (λ k p _. p) rows h
Step-IsConsistent {rows} (cancel_step id now) h =
    update_where-All IsConsistent IsConsistent (λ j. has_id id j && is_queued j) (cancelled_row now)
      (λ k p e. (refl, waiting_columns k.state k _ p e)) (λ k p _. p) rows h
Step-IsConsistent {rows} (resume_step cutoff) h =
    update_where-All IsConsistent IsConsistent (is_stale cutoff) requeued_row
      (requeued_row-IsConsistent cutoff) (λ k p _. p) rows h

-- In every table that the steps can make, the columns of every row are consistent with its state.
pub Reachable-IsConsistent : {rows : List Job} → Reachable rows → All IsConsistent rows
Reachable-IsConsistent start = tt
Reachable-IsConsistent (step r s) = Step-IsConsistent s (Reachable-IsConsistent r)
