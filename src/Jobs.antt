-- ===== src/Jobs.antt =====
-- The durable work queue of internal/fleetsec/jobs/jobs.go. The table `fleet_jobs` is the list of
-- its rows in the order of insertion, a statement a function on it, and a time a number; ids and
-- times, which the database and the clock give, are arguments. A statement that the database
-- refuses changes nothing, and is not modelled.
pub mod Lease
pub mod Invariant
pub mod Drain
pub mod Pending
mod Runs
use Prim.Native.String.{String}
use text.Mathlib.Text.{◌==◌ as str_eq}
use diginode_cc.Prelude.{
  ℕ, ◌+◌, ◌-◌, Bool, true, false, ◌&&◌, ◌||◌, Option, none, some, List, [], ◌∷◌, ◌++◌, ltb, leb,
  ◌==◌, if◌then◌else◌, length,
}
use diginode_cc.Prelude.Text.{codes}

pub data JobState : Type 0 where
  queued in_progress done failed cancelled : JobState

pub record Job : Type 0 where
  pub id : ℕ
  pub kind : String
  pub rotation_id : Option ℕ
  pub target_node_num : Option ℕ
  pub state : JobState
  pub attempts : ℕ
  pub last_error : Option (List ℕ)  -- `none` for NULL
  pub payload : List ℕ
  pub enqueued_at : ℕ
  pub started_at : Option ℕ
  pub finished_at : Option ℕ
  pub worker_id : Option ℕ

abbrev pub is_state : JobState → JobState → Bool
is_state queued queued = true
is_state in_progress in_progress = true
is_state done done = true
is_state failed failed = true
is_state cancelled cancelled = true
is_state _ _ = false

abbrev pub is_queued : Job → Bool
is_queued j = is_state j.state queued

-- `UPDATE fleet_jobs SET ... WHERE ...`
pub update_where : (Job → Bool) → (Job → Job) → List Job → List Job
update_where test set [] = []
update_where test set (j ∷ js) = (if test j then set j else j) ∷ update_where test set js

abbrev pub has_id : ℕ → Job → Bool
has_id id j = j.id == id

-- `Enqueue`: a row with the defaults of the table's columns.
unfoldable pub enqueue : ℕ → ℕ → String → Option ℕ → Option ℕ → List ℕ → List Job → List Job
enqueue id now kind rotation target payload rows =
    rows
    ++ (record {
      id = id;
      kind = kind;
      rotation_id = rotation;
      target_node_num = target;
      state = queued;
      attempts = 0;
      last_error = none;
      payload = payload;
      enqueued_at = now;
      started_at = none;
      finished_at = none;
      worker_id = none;
    }
        ∷ [])

-- `WHERE state = 'queued' ORDER BY enqueued_at ASC LIMIT 1`; of rows with one time, the first.
pub older : Job → Option Job → Option Job
older j none = some j
older j (some k) = if leb j.enqueued_at k.enqueued_at then some j else some k

pub oldest_queued : List Job → Option Job
unfolding older
oldest_queued [] = none
oldest_queued (j ∷ js) = let rest = oldest_queued js in if is_queued j then older j rest else rest

-- The assignments of the lease, and the job that `LeaseNext` returns, which keeps the error and the
-- finishing time that the row had.
pub leased_row : ℕ → ℕ → Job → Job
leased_row now worker j = record j {
  state = in_progress;
  attempts = j.attempts + 1;
  started_at = some now;
  worker_id = some worker;
  finished_at = none;
  last_error = none;
}

pub leased_job : ℕ → ℕ → Job → Job
leased_job now worker j = record j {
  state = in_progress;
  attempts = j.attempts + 1;
  started_at = some now;
  worker_id = some worker;
}

-- `LeaseNext`; `none` is `ErrNoWork`.
pub lease_found : ℕ → ℕ → List Job → Option Job → List Job × Option Job
unfolding update_where leased_row leased_job
lease_found now worker rows none = (rows, none)
lease_found now worker rows (some j) =
    (update_where (has_id j.id) (leased_row now worker) rows, some (leased_job now worker j))

pub lease_next : ℕ → ℕ → List Job → List Job × Option Job
unfolding lease_found oldest_queued
lease_next now worker rows = lease_found now worker rows (oldest_queued rows)

pub done_row : ℕ → Job → Job
done_row now j = record j { state = done; finished_at = some now; last_error = none }

pub failed_row : ℕ → List ℕ → Job → Job
failed_row now err j = record j { state = failed; finished_at = some now; last_error = some err }

pub mark_done : ℕ → ℕ → List Job → List Job
unfolding update_where done_row
mark_done id now rows = update_where (has_id id) (done_row now) rows

pub mark_failed : ℕ → ℕ → List ℕ → List Job → List Job
unfolding update_where failed_row
mark_failed id now err rows = update_where (has_id id) (failed_row now err) rows

pub cancelled_row : ℕ → Job → Job
cancelled_row now j = record j { state = cancelled; finished_at = some now }

-- `Cancel`: only a job that is still queued.
pub cancel : ℕ → ℕ → List Job → List Job
unfolding update_where cancelled_row
cancel id now rows = update_where (λ j. has_id id j && is_queued j) (cancelled_row now) rows

abbrev pub is_target : ℕ → Option ℕ → Bool
is_target n none = false
is_target n (some m) = m == n

-- `HasPendingFor`
unfoldable pub has_pending_for : String → ℕ → List Job → Bool
has_pending_for kind target [] = false
has_pending_for kind target (j ∷ js) =
    str_eq j.kind kind
      && is_target target j.target_node_num
      && (is_queued j || is_state j.state in_progress)
    || has_pending_for kind target js

abbrev pub is_before : Option ℕ → ℕ → Bool
is_before none t = false
is_before (some s) t = ltb s t

abbrev pub text_or_nil : Option (List ℕ) → List ℕ
text_or_nil none = []
text_or_nil (some e) = e

pub requeued_row : Job → Job
requeued_row j = record j {
  state = queued;
  worker_id = none;
  last_error = some (text_or_nil j.last_error ++ codes " [worker died mid-run; re-queued]");
}

abbrev pub is_stale : ℕ → Job → Bool
is_stale cutoff j = is_state j.state in_progress && is_before j.started_at cutoff

-- `ResumeStaleLeases`, by its cutoff.
pub resume_stale_leases : ℕ → List Job → List Job
unfolding update_where requeued_row
resume_stale_leases cutoff rows = update_where (is_stale cutoff) requeued_row rows

-- A handler runs a job, may change the table, and returns an error or none.
abbrev pub Handler : Type 0
Handler = Job → List Job → List Job × Option (List ℕ)

-- `dispatch`, on the handler that is registered for the job's kind; `no_handler` is the text of the
-- error if there is none, and `now` the time at which the job is closed.
pub close : ℕ → ℕ → List Job × Option (List ℕ) → List Job
unfolding mark_done mark_failed
close id now (rows, none) = mark_done id now rows
close id now (rows, some err) = mark_failed id now err rows

pub dispatch : Option Handler → List ℕ → ℕ → Job → List Job → List Job
unfolding close mark_failed
dispatch none no_handler now j rows = mark_failed j.id now no_handler rows
dispatch (some h) no_handler now j rows = close j.id now (h j rows)

-- One round of `run`: the oldest job is leased and dispatched; without one the loop sleeps.
pub round_on : (String → Option Handler) → List ℕ → ℕ → List Job × Option Job → List Job
unfolding dispatch
round_on handlers no_handler now (rows, none) = rows
round_on handlers no_handler now (rows, some j) = dispatch (handlers j.kind) no_handler now j rows

pub run_round : (String → Option Handler) → List ℕ → ℕ → ℕ → List Job → List Job
unfolding round_on lease_next
run_round handlers no_handler worker now rows =
    round_on handlers no_handler now (lease_next now worker rows)
