-- ===== src/Jobs/Lease.antt =====
-- The order of the queue and the end of a job (internal/fleetsec/jobs/jobs.go): which row
-- `LeaseNext` takes, and what a round of the worker leaves of it.
use mathlib.Core.List.{Memᴰ}
use mathlib.Core.Path.{subst}
use Prim.Native.String.{String}
use diginode_cc.Prelude.{
  ℕ, ◌≤◌, ◌≡◌, refl, Bool, true, false, Option, none, some, List, [], ◌∷◌, All, All-map, All-intro,
  leb, Bool-cases, Option-cases, arith, tests, inl, inr, ◌⊎◌, ◌||◌,
}
use diginode_cc.Jobs.{
  Job, done, failed, is_state, is_queued, has_id, update_where, older, oldest_queued, leased_row,
  leased_job, lease_found, lease_next, Handler, close, dispatch, round_on, run_round, mark_done,
  mark_failed, done_row, failed_row,
}

-- A row that is queued, with no queued row in front of it; `none` if no row is queued.
abbrev pub IsOldest : List Job → Option Job → Type 0
IsOldest rows none = All (λ k. is_queued k ≡ false) rows
IsOldest rows (some j) =
    Memᴰ j rows
    × (is_queued j ≡ true)
    × All (λ k. is_queued k ≡ true → j.enqueued_at ≤ k.enqueued_at) rows

module _ (j : Job) (js : List Job) where
  IsOldest-skip : (o : Option Job) → is_queued j ≡ false → IsOldest js o → IsOldest (j ∷ js) o
  IsOldest-skip none e h = (e, h)
  IsOldest-skip (some k) e (m, q, first) = (Memᴰ.tail m, q, ((λ t. ground arith), first))

  IsOldest-front :
      (o : Option Job) → is_queued j ≡ true → IsOldest js o → IsOldest (j ∷ js) (older j o)
  unfolding older
  IsOldest-front none e h =
      (Memᴰ.head refl, e, ((λ _. omega arith), All-map (λ k f t. ground arith) js h))
  IsOldest-front (some k) e (m, q, first) = elim (Bool-cases (leb j.enqueued_at k.enqueued_at)) [
    | inl le ↦ rw le (
      Memᴰ.head refl,
      e,
      ((λ _. omega arith), All-map (λ i first_i t. omega (tests, first_i t)) js first),
    )
    | inr gt ↦ rw gt (Memᴰ.tail m, q, ((λ _. ground arith), first))
  ]

oldest_queued-IsOldest : (rows : List Job) → IsOldest rows (oldest_queued rows)
unfolding oldest_queued
oldest_queued-IsOldest [] = tt
oldest_queued-IsOldest (j ∷ js) = elim (Bool-cases (is_queued j)) [
  | inl e ↦ rw e (IsOldest-front j js (oldest_queued js) e (oldest_queued-IsOldest js))
  | inr e ↦ rw e (IsOldest-skip j js (oldest_queued js) e (oldest_queued-IsOldest js))
]

-- `LeaseNext` says that there is no work, and changes nothing, just if no row is queued. Otherwise
-- it takes a row that is queued, none of the queued rows being older: it returns that job as
-- leased, and the table with the lease's assignments on the rows of its id.
pub lease_next-IsOldest :
    (now worker : ℕ) (rows : List Job)
    → (All (λ k. is_queued k ≡ false) rows × (lease_next now worker rows ≡ (rows, none)))
      ⊎ ((j : Job) × IsOldest rows (some j)
          × (lease_next now worker rows ≡ (
            update_where (has_id j.id) (leased_row now worker) rows,
            some (leased_job now worker j),
          )))
unfolding lease_next lease_found
lease_next-IsOldest now worker rows = elim (Option-cases (oldest_queued rows)) [
  | inl e ↦ inl (subst (IsOldest rows) e (oldest_queued-IsOldest rows), rw e refl)
  | inr (j, e) ↦ inr (j, subst (IsOldest rows) e (oldest_queued-IsOldest rows), rw e refl)
]

-- An update reads the test on the row before it.
module _ {κ μ} (P : Job → Type κ) (Q : Job → Type μ) (test : Job → Bool) (set : Job → Job)
    (hit : (k : Job) → P k → test k ≡ true → Q (set k))
    (miss : (k : Job) → P k → test k ≡ false → Q k) where
  pub update_where-All : (rows : List Job) → All P rows → All Q (update_where test set rows)
  unfolding update_where
  update_where-All [] h = tt
  update_where-All (k ∷ ks) (p, ps) = elim (Bool-cases (test k)) [
    | inl e ↦ rw e (hit k p e, update_where-All ks ps)
    | inr e ↦ rw e (miss k p e, update_where-All ks ps)
  ]

-- A job that the worker has closed.
abbrev pub is_closed : Job → Bool
is_closed k = is_state k.state done || is_state k.state failed

abbrev pub IsClosedAt : ℕ → List Job → Type 0
IsClosedAt id rows = All (λ k. has_id id k ≡ true → is_closed k ≡ true) rows

close_where-IsClosedAt :
    (id : ℕ) (set : Job → Job)
    → ((k : Job) → is_closed (set k) ≡ true)
    → (rows : List Job) → IsClosedAt id (update_where (has_id id) set rows)
close_where-IsClosedAt id set closed rows =
    update_where-All (λ _. Unit {0}) (λ k. has_id id k ≡ true → is_closed k ≡ true) (has_id id) set
      (λ k _ e _. closed k) (λ k _ e h. ground arith) rows (All-intro (λ _. tt) rows)

mark_failed-IsClosedAt :
    (id now : ℕ) (err : List ℕ) (rows : List Job) → IsClosedAt id (mark_failed id now err rows)
unfolding mark_failed failed_row
mark_failed-IsClosedAt id now err = close_where-IsClosedAt id (failed_row now err) (λ _. refl)

close-IsClosedAt : (id now : ℕ) (r : List Job × Option (List ℕ)) → IsClosedAt id (close id now r)
unfolding close mark_done done_row
close-IsClosedAt id now (rows, none) = close_where-IsClosedAt id (done_row now) (λ _. refl) rows
close-IsClosedAt id now (rows, some err) = mark_failed-IsClosedAt id now err rows

dispatch-IsClosedAt :
    (h : Option Handler) (no_handler : List ℕ) (now : ℕ) (j : Job) (rows : List Job)
    → IsClosedAt j.id (dispatch h no_handler now j rows)
unfolding dispatch
dispatch-IsClosedAt none no_handler now j rows = mark_failed-IsClosedAt j.id now no_handler rows
dispatch-IsClosedAt (some h) no_handler now j rows = close-IsClosedAt j.id now (h j rows)

-- A round of the worker closes the job that it leases, as done or as failed, whichever handlers
-- are registered and whatever they do to the table; if no row is queued, it changes nothing.
pub run_round-IsClosedAt :
    (handlers : String → Option Handler) (no_handler : List ℕ) (worker now : ℕ) (rows : List Job)
    → (All (λ k. is_queued k ≡ false) rows × (run_round handlers no_handler worker now rows ≡ rows))
      ⊎ ((j : Job) × IsOldest rows (some j)
          × IsClosedAt j.id (run_round handlers no_handler worker now rows))
unfolding run_round round_on leased_job
run_round-IsClosedAt handlers no_handler worker now rows =
    elim (lease_next-IsOldest now worker rows) [
      | inl (idle, e) ↦ inl (idle, rw e refl)
      | inr (j, oldest, e) ↦ inr (
        j,
        oldest,
        rw e (dispatch-IsClosedAt (handlers j.kind) no_handler now (leased_job now worker j) _),
      )
    ]
