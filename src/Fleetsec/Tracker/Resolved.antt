-- ===== src/Fleetsec/Tracker/Resolved.antt =====
-- A transaction from `Begin` to its reply (internal/fleetsec/transactions.go).
use Prim.Native.String.{String}
use diginode_cc.Prelude.{
  ℕ, ◌+◌, ◌≡◌, ◌≢◌, refl, ◌∙◌, Bool, true, false, not, ◌&&◌, Option, none, some, List, ◌∷◌, ◌==◌,
  if◌then◌else◌, Bool-cases, inl, inr, arith,
}
use diginode_cc.Prelude.Assoc.{lookup, erase, put, lookup-put, erase-absent, lookup-erase, same_key}
use diginode_cc.Fleetsec.Tracker.{
  PendingTx, Protobuf, Trackers, Replies, admin_msg, timeout, begin_free, begin, removed,
  remove_and_close, watched, watch, replied, handle_admin_reply, acked, handle_routing_ack,
  routing_failed, routing_ack, is_none, is_foreign,
}

abbrev pub tx_of : ℕ → String → ℕ → Bool → ℕ → PendingTx
tx_of id kind channel expects expected_from = record {
  id = id;
  kind = kind;
  reply = channel;
  expects_admin_reply = expects;
  expected_from = expected_from;
}

module _ (pb : Protobuf) where
  -- A tracker after one more transaction, which is over.
  abbrev pub after_reply : PendingTx → Replies pb → Trackers pb → Trackers pb
  after_reply tx r t = record t { next_channel = t.next_channel + 1; replies = (tx, r) ∷ t.replies }

  abbrev pub admin_reply : ℕ → Option pb.Admin → Replies pb
  admin_reply from admin = record {
    kind = admin_msg;
    from = from;
    routing = none;
    admin = admin;
    err = is_none pb admin;
  }

  abbrev pub ack_reply : ℕ → Option pb.Routing → Replies pb
  ack_reply from routing = record {
    kind = routing_ack;
    from = from;
    routing = routing;
    admin = none;
    err = is_none pb routing;
  }

  abbrev pub timeout_reply : Replies pb
  timeout_reply = record { kind = timeout; from = 0; routing = none; admin = none; err = true }

  abbrev begun_tracker : PendingTx → Trackers pb → Trackers pb
  begun_tracker tx t = record t {
    transactions = put tx.id tx t.transactions;
    next_channel = t.next_channel + 1;
  }

  begin_lem :
      (id : ℕ) (kind : String) (expects : Bool) (from : ℕ) (t : Trackers pb)
      → id ≢ 0
      → lookup id t.transactions ≡ none
      → begin pb id kind expects from t
        ≡ (begun_tracker (tx_of id kind t.next_channel expects from) t, some t.next_channel)
  unfolding begin begin_free
  begin_lem id kind expects from t ne free =
      let e : (id == 0) ≡ false = ground arith in rw (e, free) refl

  erase-put :
      (id : ℕ) (tx : PendingTx) (m : List (ℕ × PendingTx))
      → lookup id m ≡ none
      → erase id (put id tx m) ≡ m
  erase-put id tx m free =
      rw (same_key id) (erase-absent id (erase id m) (lookup-erase id m) ∙ erase-absent id m free)

  -- A request whose id is not 0 and not in flight gets a new channel. The answer of the node that
  -- it expects is the reply on it, as the message or, if it cannot be decoded, as an error; if the
  -- time is over first, the reply is a timeout. An acknowledgement by that node is the reply if no
  -- answer is expected, or if it says that the request has failed; if an answer is expected and the
  -- acknowledgement says that the request went well, the transaction goes on as it was. But for
  -- that last case the transaction is over: the tracker is as before `Begin` but for the channel
  -- and the reply, and the id is free again.
  pub begin-resolved :
      (id : ℕ) (kind : String) (expects : Bool) (from : ℕ) (payload : List ℕ) (t : Trackers pb)
      → id ≢ 0
      → lookup id t.transactions ≡ none
      → let tx = tx_of id kind t.next_channel expects from in
        let t' = (begin pb id kind expects from t).0 in
        ((begin pb id kind expects from t).1 ≡ some t.next_channel)
        × (handle_admin_reply pb from id payload t'
            ≡ after_reply tx (admin_reply from (pb.unmarshal_admin payload)) t)
        × (watch pb timeout true id t' ≡ after_reply tx timeout_reply t)
        × (handle_routing_ack pb from id payload t' ≡ (
            if expects && not (routing_failed pb (pb.unmarshal_routing payload))
            then t'
            else after_reply tx (ack_reply from (pb.unmarshal_routing payload)) t))
  unfolding handle_admin_reply replied handle_routing_ack acked watch watched removed
      remove_and_close
  begin-resolved id kind expects from payload t ne free =
      let e : (id == 0) ≡ false = ground arith in
      let tx = tx_of id kind t.next_channel expects from in
      let own : is_foreign tx from ≡ false = ground arith in
      rw (begin_lem id kind expects from t ne free) (
        refl,
        rw (e, lookup-put id tx t.transactions, own, erase-put id tx t.transactions free) refl,
        rw (lookup-put id tx t.transactions, erase-put id tx t.transactions free) refl,
        elim (Bool-cases (expects && not (routing_failed pb (pb.unmarshal_routing payload)))) [
          | inl x ↦ rw (e, lookup-put id tx t.transactions, own, x) refl
          | inr x ↦
              rw (e, lookup-put id tx t.transactions, own, x, erase-put id tx t.transactions free)
                refl
        ],
      )
