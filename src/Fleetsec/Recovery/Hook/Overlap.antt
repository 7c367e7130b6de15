-- ===== src/Fleetsec/Recovery/Hook/Overlap.antt =====
-- How many recoveries of a node wait or run: as many as calls of the hook
-- (internal/fleetsec/recovery_hook.go) overlap between their query of the queue of jobs
-- (internal/fleetsec/jobs/jobs.go) and their `Enqueue`.
use Prim.Native.String.{String}
use mathlib.Core.Path.{subst}
use text.Mathlib.Text.{◌==◌ as str_eq}
use diginode_cc.Prelude.{
  ℕ, suc, ◌+◌, ◌≤◌, ◌≡◌, Bool, false, Option, none, some, List, [], ◌∷◌, ◌++◌, if◌then◌else◌,
  Bool-cases, inl, inr, ◌==◌, arith,
}
use diginode_cc.Prelude.Sets.{contains, AreDistinct}
use diginode_cc.Jobs.{
  Job, enqueue, lease_next, mark_done, mark_failed, cancel, resume_stale_leases, has_pending_for,
}
use diginode_cc.Jobs.Pending.{
  ids, pending_count, IsQuiet, mark_done-IsQuiet, mark_failed-IsQuiet, cancel-IsQuiet,
  has_pending_for-count, resume_stale_leases-IsQuiet, lease_next-IsQuiet, enqueue-count,
  enqueue-AreDistinct,
}
use diginode_cc.Fleetsec.Recovery.{RecoveryPsk}
use diginode_cc.Fleetsec.Recovery.Hook.{
  new_recovery_hook, Marks, RecoverPayload, recover_stranded, rebuild_hash_table,
  observe_inbound_packet, force_recover_stranded, is_cleared, enqueue_recovery, System, add_call,
  observed_by, check_pending,
}

-- How many of the calls are for the node.
abbrev pub calls_for : ℕ → List RecoverPayload → ℕ
calls_for node [] = 0
calls_for node (p ∷ ps) =
    let rest = calls_for node ps in if p.node_num == node then suc rest else rest

calls_for-append :
    (node : ℕ) (ps qs : List RecoverPayload)
    → calls_for node (ps ++ qs) ≡ calls_for node ps + calls_for node qs
calls_for-append node [] qs = omega arith
calls_for-append node (p ∷ ps) qs = ground (arith, calls_for-append node ps qs)

module _ (encode : RecoverPayload → List ℕ) (k : ℕ) where
  -- What happens to the hook and the queue, in any order: packets, requests of operators, the two
  -- statements of the calls that these start, which may also fail, new tables of hashes, jobs of
  -- other kinds, and the statements of the workers. The database gives each new job an id that no
  -- job has. A call passes its query only if with it at most `k` calls for the node are between
  -- their query and their `Enqueue`.
  pub data Step (s : System) : System → Type 0 where
    observed :
        (wired : Bool) (now from hash : ℕ) (trust : Option Marks)
        → Step s (observed_by (observe_inbound_packet wired now from hash trust s.hook) s)
    forced :
        (wired : Bool) (node : ℕ) (trust : Option Marks)
        → Step s (record s { asked = add_call (force_recover_stranded wired node trust) s.asked })
    queried :
        (before : List RecoverPayload) (p : RecoverPayload) (after : List RecoverPayload)
        → s.asked ≡ before ++ (p ∷ after)
        → calls_for p.node_num (check_pending p (before ++ after) s).cleared ≤ k
        → Step s (check_pending p (before ++ after) s)
    query_failed :
        (before : List RecoverPayload) (p : RecoverPayload) (after : List RecoverPayload)
        → s.asked ≡ before ++ (p ∷ after)
        → Step s (record s { asked = before ++ after })
    added :
        (id now : ℕ) (before : List RecoverPayload) (p : RecoverPayload)
        (after : List RecoverPayload)
        → s.cleared ≡ before ++ (p ∷ after)
        → contains id (ids s.jobs) ≡ false
        → Step s
            (record s { jobs = enqueue_recovery encode id now p s.jobs; cleared = before ++ after })
    add_failed :
        (before : List RecoverPayload) (p : RecoverPayload) (after : List RecoverPayload)
        → s.cleared ≡ before ++ (p ∷ after)
        → Step s (record s { cleared = before ++ after })
    rebuilt :
        (psks : List RecoveryPsk) → Step s (record s { hook = rebuild_hash_table psks s.hook })
    enqueued :
        (id now : ℕ) (kind : String) (rotation target : Option ℕ) (payload : List ℕ)
        → contains id (ids s.jobs) ≡ false
        → str_eq kind recover_stranded ≡ false
        → Step s (record s { jobs = enqueue id now kind rotation target payload s.jobs })
    leased : (now worker : ℕ) → Step s (record s { jobs = (lease_next now worker s.jobs).0 })
    finished : (id now : ℕ) → Step s (record s { jobs = mark_done id now s.jobs })
    broken :
        (id now : ℕ) (err : List ℕ) → Step s (record s { jobs = mark_failed id now err s.jobs })
    cancelled : (id now : ℕ) → Step s (record s { jobs = cancel id now s.jobs })
    resumed : (cutoff : ℕ) → Step s (record s { jobs = resume_stale_leases cutoff s.jobs })

  abbrev pub start_state : System
  start_state = record { hook = new_recovery_hook; jobs = []; asked = []; cleared = [] }

  pub data Reachable : System → Type 0 where
    start : Reachable start_state
    step : {s t : System} → Reachable s → Step s t → Reachable t

  -- The recoveries of a node that wait or run, and those that are about to.
  abbrev load : ℕ → List Job → List RecoverPayload → ℕ
  load node rows cleared = pending_count recover_stranded node rows + calls_for node cleared

  abbrev IsSound : System → Type 0
  IsSound s = AreDistinct (ids s.jobs) × ((node : ℕ) → load node s.jobs s.cleared ≤ k)

  quiet :
      (s : System) (rows : List Job)
      → ((node : ℕ) → IsQuiet recover_stranded node s.jobs rows)
      → IsSound s
      → IsSound (record s { jobs = rows })
  quiet s rows h (d, few) = (rw (h 0).0 d, λ node. omega (arith, (h node).1, few node))

  check_pending-IsSound :
      (p : RecoverPayload) (others : List RecoverPayload) (s : System)
      → calls_for p.node_num (check_pending p others s).cleared ≤ k
      → IsSound s
      → IsSound (check_pending p others s)
  unfolding check_pending is_cleared
  check_pending-IsSound p others s room (d, few) =
      elim (Bool-cases (has_pending_for recover_stranded p.node_num s.jobs)) [
        | inl e ↦ rw e (d, few)
        | inr e ↦
            let idle = has_pending_for-count recover_stranded p.node_num s.jobs e in
            let room' : calls_for p.node_num (p ∷ s.cleared) ≤ k = rw e at room in
            rw e (
              d,
              λ node. elim (Bool-cases (p.node_num == node)) [
                | inl same ↦
                    let same' : p.node_num ≡ node = ground arith in
                    let idle' : pending_count recover_stranded node s.jobs ≡ 0 = rw same' at idle in
                    let full : calls_for node (p ∷ s.cleared) ≤ k =
                      subst (λ n. calls_for n (p ∷ s.cleared) ≤ k) same' room' in
                    omega (arith, idle', full)
                | inr other ↦ rw other (few node)
              ],
            )
      ]

  enqueue_recovery-IsSound :
      (id now : ℕ) (before : List RecoverPayload) (p : RecoverPayload) (after : List RecoverPayload)
      (s : System)
      → s.cleared ≡ before ++ (p ∷ after)
      → contains id (ids s.jobs) ≡ false
      → IsSound s
      → IsSound
          (record s { jobs = enqueue_recovery encode id now p s.jobs; cleared = before ++ after })
  unfolding enqueue_recovery
  enqueue_recovery-IsSound id now before p after s e new (d, few) = (
    enqueue-AreDistinct recover_stranded p.node_num id now recover_stranded none (some p.node_num)
        (encode p) s.jobs new d,
    λ node.
        let few' : load node s.jobs (before ++ (p ∷ after)) ≤ k = rw e at few node in
        rw
          (
            enqueue-count recover_stranded node id now recover_stranded none (some p.node_num)
                (encode p) s.jobs,
            calls_for-append node before after,
          )
          (ground (arith, few', calls_for-append node before (p ∷ after))),
  )

  add_failed-IsSound :
      (before : List RecoverPayload) (p : RecoverPayload) (after : List RecoverPayload) (s : System)
      → s.cleared ≡ before ++ (p ∷ after)
      → IsSound s
      → IsSound (record s { cleared = before ++ after })
  add_failed-IsSound before p after s e (d, few) = (
    d,
    λ node.
        let few' : load node s.jobs (before ++ (p ∷ after)) ≤ k = rw e at few node in
        ground (
          arith,
          few',
          calls_for-append node before after,
          calls_for-append node before (p ∷ after),
        ),
  )

  enqueue-IsSound :
      (id now : ℕ) (kind : String) (rotation target : Option ℕ) (payload : List ℕ) (s : System)
      → contains id (ids s.jobs) ≡ false
      → str_eq kind recover_stranded ≡ false
      → IsSound s
      → IsSound (record s { jobs = enqueue id now kind rotation target payload s.jobs })
  enqueue-IsSound id now kind rotation target payload s new other (d, few) = (
    enqueue-AreDistinct recover_stranded 0 id now kind rotation target payload s.jobs new d,
    λ node.
        rw (enqueue-count recover_stranded node id now kind rotation target payload s.jobs, other)
          (omega (arith, few node)),
  )

  Step-IsSound : {s t : System} → Step s t → IsSound s → IsSound t
  Step-IsSound (observed wired now from hash trust) v = v
  Step-IsSound (forced wired node trust) v = v
  Step-IsSound {s} (queried before p after e room) v =
      check_pending-IsSound p (before ++ after) s room v
  Step-IsSound (query_failed before p after e) v = v
  Step-IsSound {s} (added id now before p after e new) v =
      enqueue_recovery-IsSound id now before p after s e new v
  Step-IsSound {s} (add_failed before p after e) v = add_failed-IsSound before p after s e v
  Step-IsSound (rebuilt psks) v = v
  Step-IsSound {s} (enqueued id now kind rotation target payload new other) v =
      enqueue-IsSound id now kind rotation target payload s new other v
  Step-IsSound {s} (leased now worker) v =
      quiet s _ (λ n. lease_next-IsQuiet recover_stranded n now worker s.jobs v.0) v
  Step-IsSound {s} (finished id now) v =
      quiet s _ (λ n. mark_done-IsQuiet recover_stranded n id now s.jobs) v
  Step-IsSound {s} (broken id now err) v =
      quiet s _ (λ n. mark_failed-IsQuiet recover_stranded n id now err s.jobs) v
  Step-IsSound {s} (cancelled id now) v =
      quiet s _ (λ n. cancel-IsQuiet recover_stranded n id now s.jobs) v
  Step-IsSound {s} (resumed cutoff) v =
      quiet s _ (λ n. resume_stale_leases-IsQuiet recover_stranded n cutoff s.jobs) v

  Reachable-IsSound : {s : System} → Reachable s → IsSound s
  Reachable-IsSound start = (tt, λ n. omega arith)
  Reachable-IsSound (step r s) = Step-IsSound s (Reachable-IsSound r)

  -- Whatever packets come in and whatever operators ask for, and whatever the workers do to the
  -- queue in between, a node has at most `k` recovery jobs that wait or run, if never more than `k`
  -- calls of the hook for the node are between their query and their `Enqueue`. If such calls do not
  -- overlap, it has at most one.
  pub Reachable-bounded :
      {s : System} → Reachable s → (node : ℕ) → pending_count recover_stranded node s.jobs ≤ k
  Reachable-bounded r node = omega (arith, (Reachable-IsSound r).1 node)
