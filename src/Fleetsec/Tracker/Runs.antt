-- ===== src/Fleetsec/Tracker/Runs.antt =====
-- Runs of the tracker of internal/fleetsec, over a toy protobuf package, and the theorems on them.
use diginode_cc.Prelude.{
  ℕ, ◌≡◌, refl, true, not, ◌&&◌, if◌then◌else◌, Option, none, some, List, [], ◌∷◌, arith,
}
use diginode_cc.Fleetsec.Tracker.{
  Protobuf, PendingTx, Replies, Event, begun, acknowledged, answered, timed_out, new_tracker, begin,
  handle_admin_reply, handle_routing_ack, routing_failed, watch, timeout, run, ReplyKind, admin_msg,
}
use diginode_cc.Fleetsec.Tracker.Conserved.{IsConserved, run-IsConserved}
use diginode_cc.Fleetsec.Tracker.Proper.{AreProper, run-AreProper}
use diginode_cc.Fleetsec.Tracker.Resolved.{
  tx_of, after_reply, admin_reply, ack_reply, timeout_reply, begin-resolved,
}

-- A routing message is its first byte, an admin message its bytes, and nothing is malformed.
abbrev first_byte : List ℕ → Option ℕ
first_byte [] = none
first_byte (b ∷ bs) = some b

abbrev toy : Protobuf
toy = record {
  Routing = ℕ;
  Admin = List ℕ;
  unmarshal_routing = first_byte;
  error_reason = λ r. r;
  unmarshal_admin = λ bytes. some bytes;
}

-- Two requests for data to the node 8: the radio, node 3, acknowledges the first, then the node does,
-- and answers; the second is acknowledged and then timed out, and answered too late.
abbrev two_requests : List (Event toy)
two_requests =
    begun 5 "get-channel" true 8
    ∷ acknowledged 3 5 (0 ∷ [])
    ∷ acknowledged 8 5 (0 ∷ [])
    ∷ begun 6 "get-config" true 8
    ∷ answered 8 5 (1 ∷ 2 ∷ [])
    ∷ acknowledged 8 6 (0 ∷ [])
    ∷ timed_out 6
    ∷ answered 8 6 (1 ∷ [])
    ∷ []

kinds : List (ℕ × ReplyKind)
unfolding run new_tracker
kinds = map_kinds (run toy two_requests (new_tracker toy)).replies
  where
    map_kinds : List (PendingTx × Replies toy) → List (ℕ × ReplyKind)
    map_kinds [] = []
    map_kinds ((tx, r) ∷ rs) = (tx.reply, r.kind) ∷ map_kinds rs

kinds_sent : kinds ≡ (1, timeout) ∷ (0, admin_msg) ∷ []
unfolding kinds
kinds_sent = refl

run-IsConserved_example : IsConserved toy (run toy two_requests (new_tracker toy))
run-IsConserved_example = run-IsConserved toy two_requests

run-AreProper_example : AreProper toy (run toy two_requests (new_tracker toy)).replies
run-AreProper_example = run-AreProper toy two_requests

begin-resolved_example :
    ((begin toy 5 "get-channel" true 8 (new_tracker toy)).1 ≡ some 0)
    × (handle_admin_reply toy 8 5
          (1 ∷ 2 ∷ [])
          (begin toy 5 "get-channel" true 8 (new_tracker toy)).0
        ≡ after_reply toy
            (tx_of 5 "get-channel" 0 true 8)
            (admin_reply toy 8 (some (1 ∷ 2 ∷ [])))
            (new_tracker toy))
    × (watch toy timeout true 5 (begin toy 5 "get-channel" true 8 (new_tracker toy)).0
        ≡ after_reply toy (tx_of 5 "get-channel" 0 true 8) (timeout_reply toy) (new_tracker toy))
    × (handle_routing_ack toy 8 5
          (1 ∷ 2 ∷ [])
          (begin toy 5 "get-channel" true 8 (new_tracker toy)).0
        ≡ (if true && not (routing_failed toy (some 1))
            then (begin toy 5 "get-channel" true 8 (new_tracker toy)).0
            else after_reply toy
                (tx_of 5 "get-channel" 0 true 8)
                (ack_reply toy 8 (some 1))
                (new_tracker toy)))
unfolding new_tracker
begin-resolved_example =
    begin-resolved toy 5 "get-channel" true 8 (1 ∷ 2 ∷ []) (new_tracker toy) (omega arith) refl
