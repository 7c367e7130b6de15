-- ===== src/Fleetsec/Tracker/Conserved.antt =====
-- Each transaction is answered once (internal/fleetsec/transactions.go): its reply channel is either
-- that of a transaction in flight, or it has received one reply.
use Prim.Native.String.{String}
use diginode_cc.Prelude.{
  ℕ, ◌+◌, ◌≡◌, refl, Bool, true, not, ◌&&◌, Option, none, some, List, [], ◌∷◌, ltb, ◌==◌,
  if◌then◌else◌, Bool-cases, Option-cases, inl, inr, arith,
}
use diginode_cc.Prelude.Assoc.{
  lookup, IsMap, erase-IsMap, put-IsMap, erase-absent, total, total-erase,
}
use diginode_cc.Fleetsec.Tracker.{
  PendingTx, Protobuf, Trackers, Replies, ReplyKind, timeout, cancelled, new_tracker, begin_free,
  begin, resolve, remove_and_close, watched, watch, acked, handle_routing_ack, replied,
  handle_admin_reply, is_foreign, routing_failed, Event, begun, acknowledged, answered, timed_out,
  given_up, apply, run,
}

abbrev pub one_if : Bool → ℕ
one_if b = if b then 1 else 0

-- The transactions in flight that reply on the channel, and the replies that were sent on it.
abbrev is_on : ℕ → PendingTx → ℕ
is_on c tx = one_if (tx.reply == c)

abbrev pub in_flight : ℕ → List (ℕ × PendingTx) → ℕ
in_flight c = total (is_on c)

module _ (pb : Protobuf) where
  abbrev pub sent : ℕ → List (PendingTx × Replies pb) → ℕ
  sent c [] = 0
  sent c ((tx, r) ∷ rs) = is_on c tx + sent c rs

  pub record IsConserved (t : Trackers pb) : Type 0 where
    pub map : IsMap t.transactions
    pub once :
        (c : ℕ) → in_flight c t.transactions + sent c t.replies ≡ one_if (ltb c t.next_channel)

  new_tracker-IsConserved : IsConserved (new_tracker pb)
  unfolding new_tracker
  new_tracker-IsConserved = record { map = tt; once = λ c. ground arith }

  resolve-IsConserved :
      (id : ℕ) (tx : PendingTx) (r : Replies pb) (t : Trackers pb)
      → IsConserved t
      → lookup id t.transactions ≡ some tx
      → IsConserved (resolve pb id tx r t)
  resolve-IsConserved id tx r t v e = record {
    map = erase-IsMap id t.transactions v.map;
    once = λ c. omega (arith, v.once c, total-erase (is_on c) id tx t.transactions v.map e);
  }

  begin_free-IsConserved :
      (tx : PendingTx) (t : Trackers pb)
      → IsConserved t
      → tx.reply ≡ t.next_channel
      → lookup tx.id t.transactions ≡ none
      → IsConserved (begin_free pb none tx t).0
  unfolding begin_free
  begin_free-IsConserved tx t v fresh e = record {
    map = put-IsMap tx.id tx t.transactions v.map;
    once = λ c. rw (erase-absent tx.id t.transactions e) (ground (arith, v.once c));
  }

  begin-IsConserved :
      (id : ℕ) (kind : String) (expects : Bool) (from : ℕ) (t : Trackers pb)
      → IsConserved t
      → IsConserved (begin pb id kind expects from t).0
  unfolding begin
  begin-IsConserved id kind expects from t v = elim (Bool-cases (id == 0)) [
    | inl e ↦ rw e v
    | inr e ↦ rw e (elim (Option-cases (lookup id t.transactions)) [
      | inl free ↦ rw free (begin_free-IsConserved _ t v refl free)
      | inr (old, taken) ↦ rw taken (unfold begin_free in v)
    ])
  ]

  watch-IsConserved :
      (kind : ReplyKind) (err : Bool) (id : ℕ) (t : Trackers pb)
      → IsConserved t
      → IsConserved (watch pb kind err id t)
  unfolding watch watched remove_and_close
  watch-IsConserved kind err id t v = elim (Option-cases (lookup id t.transactions)) [
    | inl gone ↦ rw gone v
    | inr (tx, e) ↦ rw e (resolve-IsConserved id tx _ t v e)
  ]

  acked-IsConserved :
      (from id : ℕ) (routing : Option pb.Routing) (t : Trackers pb)
      → IsConserved t
      → IsConserved (acked pb from id routing (lookup id t.transactions) t)
  unfolding acked
  acked-IsConserved from id routing t v = elim (Option-cases (lookup id t.transactions)) [
    | inl gone ↦ rw gone v
    | inr (tx, e) ↦ rw e (elim (Bool-cases (is_foreign tx from)) [
      | inl foreign ↦ rw foreign v
      | inr own ↦
          rw own (elim (Bool-cases (tx.expects_admin_reply && not (routing_failed pb routing))) [
            | inl waits ↦ rw waits v
            | inr over ↦ rw over (resolve-IsConserved id tx _ t v e)
          ])
    ])
  ]

  replied-IsConserved :
      (from id : ℕ) (admin : Option pb.Admin) (t : Trackers pb)
      → IsConserved t
      → IsConserved (replied pb from id admin (lookup id t.transactions) t)
  unfolding replied
  replied-IsConserved from id admin t v = elim (Option-cases (lookup id t.transactions)) [
    | inl gone ↦ rw gone v
    | inr (tx, e) ↦ rw e (elim (Bool-cases (is_foreign tx from)) [
      | inl foreign ↦ rw foreign v
      | inr own ↦ rw own (resolve-IsConserved id tx _ t v e)
    ])
  ]

  ack-IsConserved :
      (from id : ℕ) (payload : List ℕ) (t : Trackers pb)
      → IsConserved t
      → IsConserved (handle_routing_ack pb from id payload t)
  unfolding handle_routing_ack
  ack-IsConserved from id payload t v = elim (Bool-cases (id == 0)) [
    | inl e ↦ rw e v
    | inr e ↦ rw e (acked-IsConserved from id (pb.unmarshal_routing payload) t v)
  ]

  answer-IsConserved :
      (from id : ℕ) (payload : List ℕ) (t : Trackers pb)
      → IsConserved t
      → IsConserved (handle_admin_reply pb from id payload t)
  unfolding handle_admin_reply
  answer-IsConserved from id payload t v = elim (Bool-cases (id == 0)) [
    | inl e ↦ rw e v
    | inr e ↦ rw e (replied-IsConserved from id (pb.unmarshal_admin payload) t v)
  ]

  pub apply-IsConserved :
      (e : Event pb) (t : Trackers pb) → IsConserved t → IsConserved (apply pb e t)
  unfolding apply
  apply-IsConserved (begun id kind expects from) t v = begin-IsConserved id kind expects from t v
  apply-IsConserved (acknowledged from id payload) t v = ack-IsConserved from id payload t v
  apply-IsConserved (answered from id payload) t v = answer-IsConserved from id payload t v
  apply-IsConserved (timed_out id) t v = watch-IsConserved timeout true id t v
  apply-IsConserved (given_up err id) t v = watch-IsConserved cancelled err id t v

  run-from : (es : List (Event pb)) (t : Trackers pb) → IsConserved t → IsConserved (run pb es t)
  unfolding run
  run-from [] t v = v
  run-from (e ∷ es) t v = run-from es (apply pb e t) (apply-IsConserved e t v)

  -- After any run of a new tracker, whatever begins, is acknowledged, answered, timed out or given
  -- up, in whatever order, and whatever the payloads are: no id stands for two transactions, and
  -- each reply channel that `Begin` has made either belongs to one transaction in flight and is
  -- empty, or belongs to none and has received one reply; so no send blocks, and none is on a
  -- channel that is closed.
  pub run-IsConserved : (es : List (Event pb)) → IsConserved (run pb es (new_tracker pb))
  run-IsConserved es = run-from es (new_tracker pb) new_tracker-IsConserved
