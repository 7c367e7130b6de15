-- ===== src/Fleetsec/Recovery/Runs.antt =====
-- Runs of the recovery cache and of the hook, and the theorems on them.
use Prim.Native.String.{String}
use diginode_cc.Prelude.{
  ℕ, ◌≤◌, ◌≡◌, refl, true, false, none, some, List, [], ◌∷◌, length, map, arith,
}
use diginode_cc.Jobs.{Job}
use diginode_cc.Jobs.Pending.{pending_count}
use diginode_cc.Fleetsec.Recovery.{
  RecoveryPsk, slot_count, channel_hash, find_fp, new_row, add_recovery_psk,
}
use diginode_cc.Fleetsec.Recovery.Slots.{IsValid}
use diginode_cc.Fleetsec.Recovery.Kept.{IsPlaced, add_recovery_psk-IsPlaced}
use diginode_cc.Fleetsec.Recovery.Bounds.{add_step, start, step, Reachable-IsValid}
use diginode_cc.Fleetsec.Recovery.Hook.{
  Marks, RecoverPayload, recover_stranded, new_recovery_hook, rebuild_hash_table,
  observe_inbound_packet, is_cleared, enqueue_recovery, check_pending,
}
use diginode_cc.Fleetsec.Recovery.Hook.Overlap as Overlap
use diginode_cc.Fleetsec.Recovery.Hook.Race as Race

hash_of_key : channel_hash [] (1 ∷ 2 ∷ 7 ∷ []) ≡ 4
unfolding channel_hash
hash_of_key = refl

abbrev one_key : List RecoveryPsk
one_key = (add_recovery_psk 10 (65 ∷ []) (1 ∷ 2 ∷ []) 3 none []).0

slot_of_key : map (λ r. r.slot) one_key ≡ 2 ∷ []
unfolding add_recovery_psk
slot_of_key = refl

Reachable-IsValid_example : IsValid one_key × (length one_key ≤ slot_count)
Reachable-IsValid_example =
    Reachable-IsValid {rows = one_key} (step start (add_step 10 (65 ∷ []) (1 ∷ 2 ∷ []) 3 none))

add_recovery_psk-IsPlaced_example :
    IsPlaced
      (new_row 20 (66 ∷ []) (9 ∷ []) 9 none)
      one_key
      (add_recovery_psk 20 (66 ∷ []) (9 ∷ []) 9 none one_key)
unfolding add_recovery_psk find_fp
add_recovery_psk-IsPlaced_example =
    add_recovery_psk-IsPlaced 20 (66 ∷ []) (9 ∷ []) 9 none one_key Reachable-IsValid_example.0 refl
      refl refl

abbrev encode : RecoverPayload → List ℕ
encode p = p.prev_psk_fp

abbrev marks : Marks
marks = record { stranded_since = some 5; previous_psk_fp = [] }

abbrev request : String → RecoverPayload
request source = record { node_num = 8; prev_psk_fp = 65 ∷ []; source = source }

-- The packet of node 8 on the hash of the cached key asks for a recovery.
packet_asks :
    (observe_inbound_packet true 100 8 3
      (some marks)
      (rebuild_hash_table one_key new_recovery_hook)).1
    ≡ some (request "dispatcher")
unfolding new_recovery_hook observe_inbound_packet rebuild_hash_table add_recovery_psk
packet_asks = refl

-- The queue after the call for that packet.
abbrev one_job : List Job
one_job = enqueue_recovery encode 1 100 (request "dispatcher") []

-- A second call is turned away.
second_call : is_cleared (request "manual") one_job ≡ false
unfolding is_cleared enqueue_recovery
second_call = refl

Reachable-bounded_example : pending_count recover_stranded 8 one_job ≤ 1
unfolding observe_inbound_packet rebuild_hash_table new_recovery_hook add_recovery_psk check_pending
Reachable-bounded_example =
    Overlap.Reachable-bounded encode 1
      (Overlap.step
        (Overlap.step
          (Overlap.step (Overlap.step Overlap.start (Overlap.rebuilt one_key))
            (Overlap.observed true 100 8 3 (some marks)))
          (Overlap.queried [] (request "dispatcher") [] refl (omega arith)))
        (Overlap.added 1 100 [] (request "dispatcher") [] refl refl))
      8
