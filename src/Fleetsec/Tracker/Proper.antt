-- ===== src/Fleetsec/Tracker/Proper.antt =====
-- Which replies reach a transaction (internal/fleetsec/transactions.go): those of the node that it
-- expects, and an acknowledgement of a request for data only if it is a refusal.
use Prim.Native.String.{String}
use diginode_cc.Prelude.{
  ℕ, ◌≡◌, refl, Bool, true, false, not, ◌&&◌, Option, none, some, List, [], ◌∷◌, All, ◌==◌,
  Bool-cases, inl, inr, arith,
}
use diginode_cc.Prelude.Assoc.{lookup}
use diginode_cc.Fleetsec.Tracker.{
  PendingTx, Protobuf, Trackers, Replies, ReplyKind, routing_ack, admin_msg, timeout, cancelled,
  new_tracker, successful, begin_free, begin, removed, remove_and_close, watched, watch, acked,
  handle_routing_ack, replied, handle_admin_reply, is_foreign, routing_failed, is_none, Event,
  begun, acknowledged, answered, timed_out, given_up, apply, run,
}

module _ (pb : Protobuf) where
  abbrev pub ProperOf : ReplyKind → PendingTx → Replies pb → Type 0
  ProperOf routing_ack tx r =
      (is_foreign tx r.from ≡ false) × (tx.expects_admin_reply ≡ true → successful pb r ≡ false)
  ProperOf admin_msg tx r = is_foreign tx r.from ≡ false
  ProperOf timeout tx r = (r.routing ≡ none) × (r.admin ≡ none)
  ProperOf cancelled tx r = (r.routing ≡ none) × (r.admin ≡ none)

  abbrev pub AreProper : List (PendingTx × Replies pb) → Type 0
  AreProper rs = All (λ p. ProperOf p.1.kind p.0 p.1) rs

  begin_free-replies :
      (o : Option PendingTx) (tx : PendingTx) (t : Trackers pb)
      → (begin_free pb o tx t).0.replies ≡ t.replies
  unfolding begin_free
  begin_free-replies none tx t = refl
  begin_free-replies (some old) tx t = refl

  begin-replies :
      (id : ℕ) (kind : String) (expects : Bool) (from : ℕ) (t : Trackers pb)
      → (begin pb id kind expects from t).0.replies ≡ t.replies
  unfolding begin
  begin-replies id kind expects from t = elim (Bool-cases (id == 0)) [
    | inl e ↦ rw e refl
    | inr e ↦ rw e (begin_free-replies (lookup id t.transactions) _ t)
  ]

  watch-AreProper :
      (kind : ReplyKind) (err : Bool) (o : Option PendingTx) (id : ℕ) (t : Trackers pb)
      → ((tx : PendingTx) (r : Replies pb)
          → r.kind ≡ kind
          → r.routing ≡ none
          → r.admin ≡ none
          → ProperOf r.kind tx r)
      → AreProper t.replies
      → AreProper (watched pb kind err (removed pb id o t)).replies
  unfolding watched removed
  watch-AreProper kind err none id t proper h = h
  watch-AreProper kind err (some tx) id t proper h = (proper tx _ refl refl refl, h)

  refused :
      (from : ℕ) (routing : Option pb.Routing)
      → not (routing_failed pb routing) ≡ false
      → successful pb (record {
        kind = routing_ack;
        from = from;
        routing = routing;
        admin = none;
        err = is_none pb routing;
      })
        ≡ false
  unfolding successful
  refused from none e = refl
  refused from (some r) e = ground arith

  acked-AreProper :
      (from id : ℕ) (routing : Option pb.Routing) (o : Option PendingTx) (t : Trackers pb)
      → AreProper t.replies
      → AreProper (acked pb from id routing o t).replies
  unfolding acked
  acked-AreProper from id routing none t h = h
  acked-AreProper from id routing (some tx) t h = elim (Bool-cases (is_foreign tx from)) [
    | inl foreign ↦ rw foreign h
    | inr own ↦
        rw own (elim (Bool-cases (tx.expects_admin_reply && not (routing_failed pb routing))) [
          | inl waits ↦ rw waits h
          | inr over ↦ rw over ((own, λ expects. refused from routing (rw expects at over)), h)
        ])
  ]

  replied-AreProper :
      (from id : ℕ) (admin : Option pb.Admin) (o : Option PendingTx) (t : Trackers pb)
      → AreProper t.replies
      → AreProper (replied pb from id admin o t).replies
  unfolding replied
  replied-AreProper from id admin none t h = h
  replied-AreProper from id admin (some tx) t h = elim (Bool-cases (is_foreign tx from)) [
    | inl foreign ↦ rw foreign h
    | inr own ↦ rw own (own, h)
  ]

  apply-AreProper :
      (e : Event pb) (t : Trackers pb) → AreProper t.replies → AreProper (apply pb e t).replies
  unfolding apply watch remove_and_close handle_routing_ack handle_admin_reply
  apply-AreProper (begun id kind expects from) t h = rw (begin-replies id kind expects from t) h
  apply-AreProper (acknowledged from id payload) t h = elim (Bool-cases (id == 0)) [
    | inl e ↦ rw e h
    | inr e ↦
        rw e (acked-AreProper from id (pb.unmarshal_routing payload) (lookup id t.transactions) t h)
  ]
  apply-AreProper (answered from id payload) t h = elim (Bool-cases (id == 0)) [
    | inl e ↦ rw e h
    | inr e ↦
        rw e (replied-AreProper from id (pb.unmarshal_admin payload) (lookup id t.transactions) t h)
  ]
  apply-AreProper (timed_out id) t h =
      watch-AreProper timeout true (lookup id t.transactions) id t (λ tx r k x y. rw k (x, y)) h
  apply-AreProper (given_up err id) t h =
      watch-AreProper cancelled err (lookup id t.transactions) id t (λ tx r k x y. rw k (x, y)) h

  run-from :
      (es : List (Event pb)) (t : Trackers pb)
      → AreProper t.replies
      → AreProper (run pb es t).replies
  unfolding run
  run-from [] t h = h
  run-from (e ∷ es) t h = run-from es (apply pb e t) (apply-AreProper e t h)

  -- In any run of a new tracker, an acknowledgement or an answer reaches a transaction only from the
  -- node that it expects (any node, if that is 0), so that the local radio's own acknowledgement
  -- never closes a request to another node; a successful acknowledgement never closes a request for
  -- data; and a reply of a timeout or a cancellation carries no message.
  pub run-AreProper : (es : List (Event pb)) → AreProper (run pb es (new_tracker pb)).replies
  unfolding new_tracker
  run-AreProper es = run-from es (new_tracker pb) tt
