-- ===== src/Fleetsec/Recovery/Hook.antt =====
-- The hook that finds stranded nodes (internal/fleetsec/recovery_hook.go): `ObserveInboundPacket`,
-- which the dispatcher calls for each packet, and `ForceRecoverStranded`. The row that
-- `GetNodeTrust` gives is an argument, `none` for an error, and so is the JSON of a payload. A call
-- queries the table of jobs and then adds to it, in two statements between which others may come.

pub mod Overlap
pub mod Race
use Prim.Native.String.{String}
use diginode_cc.Prelude.{
  ℕ, ◌+◌, ◌*◌, ◌^◌, ◌%◌, Bool, true, false, not, ◌&&◌, ◌||◌, Option, none, some, List, [], ◌∷◌, ltb,
  leb, if◌then◌else◌, is_empty,
}
use diginode_cc.Prelude.Assoc.{lookup, put}
use diginode_cc.Prelude.Text.{eq_text}
use diginode_cc.Jobs.{Job, enqueue, has_pending_for}
use diginode_cc.Fleetsec.Recovery.{RecoveryPsk}

-- `cooldown` has the times of the last packets that were looked at.
pub record RecoveryHook : Type 0 where
  pub hash_fp : List (ℕ × List ℕ)
  pub cooldown : List (ℕ × ℕ)

unfoldable pub new_recovery_hook : RecoveryHook
new_recovery_hook = record { hash_fp = []; cooldown = [] }

-- The columns of a row of `fleet_node_trust` that the hook reads.
pub record Marks : Type 0 where
  pub stranded_since : Option ℕ
  pub previous_psk_fp : List ℕ

-- `RecoverStrandedPayload`
pub record RecoverPayload : Type 0 where
  pub node_num : ℕ
  pub prev_psk_fp : List ℕ
  pub source : String

abbrev pub recover_stranded : String
recover_stranded = "recover_stranded"

-- `30*time.Second`
abbrev pub cooldown_window : ℕ
cooldown_window = 30000000000

-- `ORDER BY slot`
insert_by_slot : RecoveryPsk → List RecoveryPsk → List RecoveryPsk
insert_by_slot r [] = r ∷ []
insert_by_slot r (q ∷ qs) =
    let rest = insert_by_slot r qs in if leb r.slot q.slot then r ∷ (q ∷ qs) else q ∷ rest

unfoldable pub list_recovery_psks : List RecoveryPsk → List RecoveryPsk
unfolding insert_by_slot
list_recovery_psks [] = []
list_recovery_psks (r ∷ rs) = insert_by_slot r (list_recovery_psks rs)

-- The loop that fills the new table: of rows with one hash, the last counts.
unfoldable pub fill : List RecoveryPsk → List (ℕ × List ℕ) → List (ℕ × List ℕ)
fill [] table = table
fill (r ∷ rs) table = fill rs (put (r.psk_hash % 2 ^ 8) r.fp table)

unfoldable pub rebuild_hash_table : List RecoveryPsk → RecoveryHook → RecoveryHook
unfolding fill list_recovery_psks
rebuild_hash_table rows h = record h { hash_fp = fill (list_recovery_psks rows) [] }

abbrev pub in_cooldown : ℕ → Option ℕ → Bool
in_cooldown now none = false
in_cooldown now (some last) = ltb now (last + cooldown_window)

-- The fingerprint that the node was last known to have, if there is one.
abbrev pub chosen_fp : List ℕ → Marks → List ℕ
chosen_fp fp t =
    if not (is_empty t.previous_psk_fp) && not (eq_text t.previous_psk_fp fp)
    then t.previous_psk_fp
    else fp

-- `ObserveInboundPacket` up to its `HasPendingFor`: the recovery that it would ask for, of a node that
-- is stranded since then, if it is.
unfoldable pub observe_stranded : ℕ → List ℕ → Option ℕ → Option RecoverPayload
observe_stranded from fp none = none
observe_stranded from fp (some since) =
    some (record { node_num = from; prev_psk_fp = fp; source = "dispatcher" })

-- What follows the read of the trust row.
unfoldable pub observe_trust : ℕ → List ℕ → Option Marks → Option RecoverPayload
unfolding observe_stranded
observe_trust from fp none = none
observe_trust from fp (some t) = observe_stranded from (chosen_fp fp t) t.stranded_since

-- What follows the lookup of the hash.
unfoldable pub observe_hash :
    ℕ → ℕ → Option (List ℕ) → Option Marks → RecoveryHook → RecoveryHook × Option RecoverPayload
unfolding observe_trust
observe_hash now from none trust h = (h, none)
observe_hash now from (some fp) trust h =
    if in_cooldown now (lookup from h.cooldown)
    then (h, none)
    else (record h { cooldown = put from now h.cooldown }, observe_trust from fp trust)

-- `wired` is false if there is no job store.
unfoldable pub observe_inbound_packet :
    Bool → ℕ → ℕ → ℕ → Option Marks → RecoveryHook → RecoveryHook × Option RecoverPayload
unfolding observe_hash
observe_inbound_packet wired now from channel_hash trust h =
    if wired then observe_hash now from (lookup channel_hash h.hash_fp) trust h else (h, none)

-- `ForceRecoverStranded` up to its `HasPendingFor`; `none` is an error.
unfoldable pub force_stranded : ℕ → List ℕ → Option ℕ → Option RecoverPayload
force_stranded node prev none = none
force_stranded node prev (some since) =
    if is_empty prev
    then none
    else some (record { node_num = node; prev_psk_fp = prev; source = "manual" })

unfoldable pub force_recover_stranded : Bool → ℕ → Option Marks → Option RecoverPayload
unfolding force_stranded
force_recover_stranded false node trust = none
force_recover_stranded true node none = none
force_recover_stranded true node (some t) = force_stranded node t.previous_psk_fp t.stranded_since

-- The `HasPendingFor` of both: whether the call goes on to its `Enqueue`.
unfoldable pub is_cleared : RecoverPayload → List Job → Bool
unfolding has_pending_for
is_cleared p rows = not (has_pending_for recover_stranded p.node_num rows)

-- The `Enqueue` of both.
unfoldable pub enqueue_recovery :
    (RecoverPayload → List ℕ) → ℕ → ℕ → RecoverPayload → List Job → List Job
unfolding enqueue
enqueue_recovery encode id now p rows =
    enqueue id now recover_stranded none (some p.node_num) (encode p) rows

-- The hook, the queue, and the calls of both methods that run: those that have yet to make their
-- query, and those that have made it and are going to enqueue. Nothing locks the queue in between.
pub record System : Type 0 where
  pub hook : RecoveryHook
  pub jobs : List Job
  pub asked : List RecoverPayload
  pub cleared : List RecoverPayload

abbrev pub add_call : Option RecoverPayload → List RecoverPayload → List RecoverPayload
add_call none calls = calls
add_call (some p) calls = p ∷ calls

abbrev pub observed_by : RecoveryHook × Option RecoverPayload → System → System
observed_by (h, p) s = record s { hook = h; asked = add_call p s.asked }

unfoldable pub check_pending : RecoverPayload → List RecoverPayload → System → System
unfolding is_cleared
check_pending p others s = record s {
  asked = others;
  cleared = if is_cleared p s.jobs then p ∷ s.cleared else s.cleared;
}
