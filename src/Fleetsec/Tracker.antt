-- ===== src/Fleetsec/Tracker.antt =====
-- The transactions of internal/fleetsec/transactions.go: `Tracker`. The protobuf package is a
-- parameter: `unmarshal_routing` and `unmarshal_admin` give `none` for a payload that they refuse,
-- and `error_reason` is 0 for `Routing_NONE`. A reply channel is its number, in the order in which
-- `Begin` makes them; `replies` are the replies that were sent, each with its transaction, the last
-- one first. Every send is followed by a close of the channel.
pub mod Conserved
pub mod Proper
pub mod Resolved
mod Runs
use Prim.Native.String.{String}
use diginode_cc.Prelude.{
  ℕ, ◌+◌, Bool, true, false, not, ◌&&◌, ◌||◌, Option, none, some, List, [], ◌∷◌, ◌==◌,
  if◌then◌else◌, length,
}
use diginode_cc.Prelude.Assoc.{lookup, erase, put}

pub data ReplyKind : Type 0 where
  routing_ack admin_msg timeout cancelled : ReplyKind

-- `pendingTx`, without the function that cancels its context.
pub record PendingTx : Type 0 where
  pub id : ℕ
  pub kind : String
  pub reply : ℕ
  pub expects_admin_reply : Bool
  pub expected_from : ℕ

-- `tx.expectedFrom != 0 && from != tx.expectedFrom`
abbrev pub is_foreign : PendingTx → ℕ → Bool
is_foreign tx from = not (tx.expected_from == 0) && not (from == tx.expected_from)

-- `err` is true if `Err` is set.
pub record Reply (Routing Admin : Type 0) : Type 0 where
  pub kind : ReplyKind
  pub from : ℕ
  pub routing : Option Routing
  pub admin : Option Admin
  pub err : Bool

pub record Tracker (Routing Admin : Type 0) : Type 0 where
  pub transactions : List (ℕ × PendingTx)
  pub next_channel : ℕ
  pub replies : List (PendingTx × Reply Routing Admin)

-- The package of the protobuf messages.
pub record Protobuf : Type 1 where
  pub Routing : Type 0
  pub Admin : Type 0
  pub unmarshal_routing : List ℕ → Option Routing
  pub error_reason : Routing → ℕ
  pub unmarshal_admin : List ℕ → Option Admin

module _ (pb : Protobuf) where
  abbrev pub Replies : Type 0
  Replies = Reply pb.Routing pb.Admin

  abbrev pub Trackers : Type 0
  Trackers = Tracker pb.Routing pb.Admin

  unfoldable pub new_tracker : Trackers
  new_tracker = record { transactions = []; next_channel = 0; replies = [] }

  -- `Reply.Successful`
  unfoldable pub successful : Replies → Bool
  successful r = elim r.kind [
    | routing_ack ↦ elim r.routing [ none ↦ false | some routing ↦ pb.error_reason routing == 0 ]
    | _ ↦ false
  ]

  -- `Begin`: the reply channel, or `none` for an error.
  begin_free : Option PendingTx → PendingTx → Trackers → Trackers × Option ℕ
  begin_free (some old) tx t = (t, none)
  begin_free none tx t = (
    record t { transactions = put tx.id tx t.transactions; next_channel = t.next_channel + 1 },
    some tx.reply,
  )

  unfoldable pub begin : ℕ → String → Bool → ℕ → Trackers → Trackers × Option ℕ
  unfolding begin_free
  begin id kind expects expected_from t =
      if id == 0
      then (t, none)
      else begin_free (lookup id t.transactions)
          (record {
            id = id;
            kind = kind;
            reply = t.next_channel;
            expects_admin_reply = expects;
            expected_from = expected_from;
          })
          t

  -- `delete(t.transactions, id)`, `tx.reply <- r` and `close(tx.reply)`.
  abbrev pub resolve : ℕ → PendingTx → Replies → Trackers → Trackers
  resolve id tx r t = record t {
    transactions = erase id t.transactions;
    replies = (tx, r) ∷ t.replies;
  }

  -- `removeAndClose`
  removed : ℕ → Option PendingTx → Trackers → Trackers × Option PendingTx
  removed id none t = (t, none)
  removed id (some tx) t = (record t { transactions = erase id t.transactions }, some tx)

  unfoldable pub remove_and_close : ℕ → Trackers → Trackers × Option PendingTx
  unfolding removed
  remove_and_close id t = removed id (lookup id t.transactions) t

  -- The goroutine that `Begin` starts, once its context is done: `kind` is `timeout` or `cancelled`.
  watched : ReplyKind → Bool → Trackers × Option PendingTx → Trackers
  watched kind err (t, none) = t
  watched kind err (t, some tx) = record t {
    replies =
        (tx, record { kind = kind; from = 0; routing = none; admin = none; err = err }) ∷ t.replies;
  }

  unfoldable pub watch : ReplyKind → Bool → ℕ → Trackers → Trackers
  unfolding remove_and_close watched
  watch kind err id t = watched kind err (remove_and_close id t)

  -- `parseErr != nil || routing.GetErrorReason() != pb.Routing_NONE`
  abbrev pub routing_failed : Option pb.Routing → Bool
  routing_failed none = true
  routing_failed (some routing) = not (pb.error_reason routing == 0)

  abbrev pub is_none {ℓ} : {A : Type ℓ} → Option A → Bool
  is_none none = true
  is_none (some a) = false

  acked : ℕ → ℕ → Option pb.Routing → Option PendingTx → Trackers → Trackers
  acked from request_id routing none t = t
  acked from request_id routing (some tx) t =
      if is_foreign tx from
      then t
      else if tx.expects_admin_reply && not (routing_failed routing)
      then t
      else resolve request_id tx
          (record {
            kind = routing_ack;
            from = from;
            routing = routing;
            admin = none;
            err = is_none routing;
          })
          t

  unfoldable pub handle_routing_ack : ℕ → ℕ → List ℕ → Trackers → Trackers
  unfolding acked
  handle_routing_ack from request_id payload t =
      if request_id == 0
      then t
      else acked from request_id (pb.unmarshal_routing payload) (lookup request_id t.transactions) t

  replied : ℕ → ℕ → Option pb.Admin → Option PendingTx → Trackers → Trackers
  replied from request_id admin none t = t
  replied from request_id admin (some tx) t =
      if is_foreign tx from
      then t
      else resolve request_id tx
          (record {
            kind = admin_msg;
            from = from;
            routing = none;
            admin = admin;
            err = is_none admin;
          })
          t

  unfoldable pub handle_admin_reply : ℕ → ℕ → List ℕ → Trackers → Trackers
  unfolding replied
  handle_admin_reply from request_id payload t =
      if request_id == 0
      then t
      else replied from request_id (pb.unmarshal_admin payload) (lookup request_id t.transactions) t

  -- `Pending`
  unfoldable pub pending : Trackers → ℕ
  pending t = length t.transactions

  -- What happens to a tracker, in any order: a watcher may fire at any time.
  pub data Event : Type 0 where
    begun : ℕ → String → Bool → ℕ → Event
    acknowledged : ℕ → ℕ → List ℕ → Event
    answered : ℕ → ℕ → List ℕ → Event
    timed_out : ℕ → Event
    given_up : Bool → ℕ → Event

  unfoldable pub apply : Event → Trackers → Trackers
  unfolding begin watch handle_routing_ack handle_admin_reply
  apply (begun id kind expects expected_from) t = (begin id kind expects expected_from t).0
  apply (acknowledged from request_id payload) t = handle_routing_ack from request_id payload t
  apply (answered from request_id payload) t = handle_admin_reply from request_id payload t
  apply (timed_out id) t = watch timeout true id t
  apply (given_up err id) t = watch cancelled err id t

  unfoldable pub run : List Event → Trackers → Trackers
  unfolding apply
  run [] t = t
  run (e ∷ es) t = run es (apply e t)
