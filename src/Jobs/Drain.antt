-- ===== src/Jobs/Drain.antt =====
-- The worker empties the queue (internal/fleetsec/jobs/jobs.go): rounds of `run` over handlers that
-- may enqueue more jobs, as that of Phase A does (internal/fleetsec/job_handlers.go), if every job
-- can be given a weight that bounds what it leads to.
use Prim.Native.String.{String}
use mathlib.Core.List.{Memᴰ}
use mathlib.Core.Path.{subst}
use diginode_cc.Prelude.{
  ℕ, suc, ◌+◌, ◌≤◌, ◌<◌, ◌≡◌, refl, ap, Bool, true, false, Option, none, some, List, [], ◌∷◌, All,
  if◌then◌else◌, Bool-cases, arith, inl, inr, ◌-◌, length,
}
use diginode_cc.Jobs.{
  Job, is_queued, has_id, update_where, enqueue, Handler, leased_row, leased_job, close, dispatch,
  mark_done, mark_failed, done_row, failed_row, round_on, run_round,
}
use diginode_cc.Jobs.Lease.{lease_next-IsOldest}

abbrev pub queued_count : List Job → ℕ
queued_count [] = 0
queued_count (j ∷ js) = let rest = queued_count js in if is_queued j then suc rest else rest

-- Rounds of the worker at the given times.
unfoldable pub run_rounds : (String → Option Handler) → List ℕ → ℕ → List ℕ → List Job → List Job
unfolding run_round
run_rounds handlers no_handler worker [] rows = rows
run_rounds handlers no_handler worker (now ∷ nows) rows =
    run_rounds handlers no_handler worker nows (run_round handlers no_handler worker now rows)

-- A weight for the jobs of each kind and rotation.
module _ (weigh : String → Option ℕ → ℕ) where
  abbrev pub weight : Job → ℕ
  weight j = weigh j.kind j.rotation_id

  abbrev pub queued_weight : List Job → ℕ
  queued_weight [] = 0
  queued_weight (j ∷ js) =
      let rest = queued_weight js in if is_queued j then weight j + rest else rest

  -- What the handler puts into the queue for a job is lighter than the job.
  abbrev pub IsLight : Option Handler → Job → Type 0
  IsLight none j = 0 < weight j
  IsLight (some h) j =
      (rows : List Job) → queued_weight (h j rows).0 < queued_weight rows + weight j

  pub enqueue-weight :
      (id now : ℕ) (kind : String) (rotation target : Option ℕ) (payload : List ℕ) (rows : List Job)
      → queued_weight (enqueue id now kind rotation target payload rows)
        ≡ queued_weight rows + weigh kind rotation
  unfolding enqueue
  enqueue-weight id now kind rotation target payload [] = omega arith
  enqueue-weight id now kind rotation target payload (j ∷ js) =
      ground (arith, enqueue-weight id now kind rotation target payload js)

  -- An update that leaves no row queued.
  module _ (test : Job → Bool) (set : Job → Job)
      (sets : (k : Job) → is_queued (set k) ≡ false) where
    update_where_le :
        (rows : List Job) → queued_weight (update_where test set rows) ≤ queued_weight rows
    unfolding update_where
    update_where_le [] = omega arith
    update_where_le (k ∷ ks) = elim (Bool-cases (test k)) [
      | inl e ↦ rw e (ground (arith, sets k, update_where_le ks))
      | inr e ↦ rw e (ground (arith, update_where_le ks))
    ]

    update_where_lighter :
        (rows : List Job) (j : Job)
        → Memᴰ j rows
        → is_queued j ≡ true
        → test j ≡ true
        → queued_weight (update_where test set rows) + weight j ≤ queued_weight rows
    unfolding update_where
    update_where_lighter [] j m q t = elim m [ ]
    update_where_lighter (k ∷ ks) j (Memᴰ.head p) q t =
        let tk : test k ≡ true = subst (λ i. test i ≡ true) p t in
        let qk : is_queued k ≡ true = subst (λ i. is_queued i ≡ true) p q in
        let same : weight j ≡ weight k = ap weight p in
        rw tk (ground (arith, sets k, qk, same, update_where_le ks))
    update_where_lighter (k ∷ ks) j (Memᴰ.tail m) q t = elim (Bool-cases (test k)) [
      | inl e ↦ rw e (ground (arith, sets k, update_where_lighter ks j m q t))
      | inr e ↦ rw e (ground (arith, update_where_lighter ks j m q t))
    ]

  close_le :
      (id now : ℕ) (r : List Job × Option (List ℕ))
      → queued_weight (close id now r) ≤ queued_weight r.0
  unfolding close mark_done mark_failed done_row failed_row
  close_le id now (rows, none) = update_where_le (has_id id) (done_row now) (λ _. refl) rows
  close_le id now (rows, some err) =
      update_where_le (has_id id) (failed_row now err) (λ _. refl) rows

  dispatch_lt :
      (h : Option Handler) (no_handler : List ℕ) (now : ℕ) (j : Job) (rows : List Job)
      → IsLight h j
      → queued_weight (dispatch h no_handler now j rows) < queued_weight rows + weight j
  unfolding dispatch mark_failed failed_row
  dispatch_lt none no_handler now j rows light =
      omega
        (arith, light, update_where_le (has_id j.id) (failed_row now no_handler) (λ _. refl) rows)
  dispatch_lt (some h) no_handler now j rows light =
      omega (arith, close_le j.id now (h j rows), light rows)

  idle_weight : (rows : List Job) → All (λ k. is_queued k ≡ false) rows → queued_weight rows ≡ 0
  idle_weight [] h = refl
  idle_weight (k ∷ ks) (e, h) = rw e (idle_weight ks h)

  IsLight-positive : (h : Option Handler) (j : Job) → IsLight h j → 0 < weight j
  IsLight-positive none j light = light
  IsLight-positive (some h) j light = omega (arith, light [])

  module _ (handlers : String → Option Handler) (no_handler : List ℕ)
      (light : (j : Job) → IsLight (handlers j.kind) j) where
    count_le : (rows : List Job) → queued_count rows ≤ queued_weight rows
    count_le [] = omega arith
    count_le (j ∷ js) = ground (arith, count_le js, IsLight-positive (handlers j.kind) j (light j))

    -- What is left after a round is lighter, if anything was queued.
    run_round_le :
        (worker now : ℕ) (rows : List Job)
        → queued_weight (run_round handlers no_handler worker now rows) ≤ queued_weight rows - 1
    unfolding run_round round_on leased_row leased_job
    run_round_le worker now rows = elim (lease_next-IsOldest now worker rows) [
      | inl (idle, e) ↦ rw e (omega (arith, idle_weight rows idle))
      | inr (j, (m, q, first), e) ↦ rw e (
          omega (
            arith,
            dispatch_lt (handlers j.kind) no_handler now (leased_job now worker j)
                (update_where (has_id j.id) (leased_row now worker) rows)
                (light (leased_job now worker j)),
            update_where_lighter (has_id j.id) (leased_row now worker) (λ _. refl) rows j m q
                (ground arith),
          ))
    ]

    -- The worker empties the queue, at whatever times its rounds are and although handlers enqueue
    -- further jobs, if jobs can be weighed by kind and rotation such that what a handler puts into
    -- the queue for a job is lighter than the job, as when Phase A weighs one more than the jobs of
    -- Phase B that it leads to: it takes no more rounds than the weight of the queued jobs. Nothing
    -- but the handlers enqueues meanwhile.
    pub run_rounds-drained :
        (worker : ℕ) (nows : List ℕ) (rows : List Job)
        → queued_weight rows ≤ length nows
        → queued_count (run_rounds handlers no_handler worker nows rows) ≡ 0
    unfolding run_rounds
    run_rounds-drained worker [] rows h = omega (arith, count_le rows)
    run_rounds-drained worker (now ∷ nows) rows h =
        run_rounds-drained worker nows (run_round handlers no_handler worker now rows)
          (omega (arith, run_round_le worker now rows))
