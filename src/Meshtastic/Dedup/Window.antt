-- ===== src/Meshtastic/Dedup/Window.antt =====
-- What `isDuplicate` drops (internal/meshtastic/dispatcher.go): a packet of the same sender and id
-- within the window, and no other.
use diginode_cc.Prelude.{
  ℕ, ◌+◌, ◌*◌, ◌^◌, ◌≤◌, ◌<◌, bit_or, ◌≡◌, refl, sym, ap, ◌∙◌, ◌≢◌, ◌↔◌, true, false, Option, none,
  some, ◌==◌, ==_iff, Bool-cases, inl, inr, arith,
}
use diginode_cc.Prelude.Bits.{bit_or-high_low}
use diginode_cc.Prelude.Assoc.{lookup, put, IsMap, put-IsMap, lookup-put, lookup-put_other}
use diginode_cc.Serial.Varint.{IsU32}
use diginode_cc.Serial.Packet.{MeshPacketData}
use diginode_cc.Meshtastic.Dedup.{
  Seen, dedup_window, is_recent, packet_key, prune_if_full, see, is_duplicate,
}
use diginode_cc.Meshtastic.Dedup.Unpruned.{Forgotten, prune_if_full-Forgotten}

kept : (now : ℕ) (o : Option ℕ) → Forgotten now (some now) o → o ≡ some now
kept now o (inl e) = e
kept now o (inr (gone, old)) = ground arith

lookup-prune_if_full :
    (now k : ℕ) (m : Seen) → IsMap m → lookup k (prune_if_full now (put k now m)) ≡ some now
lookup-prune_if_full now k m d =
    kept now (lookup k (prune_if_full now (put k now m))) (
      rw (lookup-put k now m) at
        (prune_if_full-Forgotten now k (put k now m) (put-IsMap k now m d)))

pub see-again :
    (now later k : ℕ) (m : Seen)
    → IsMap m
    → (see now k m).1 ≡ false
    → now ≤ later
    → later < now + dedup_window
    → see later k (see now k m).0 ≡ ((see now k m).0, true)
unfolding see
see-again now later k m d passed h inside = elim (Bool-cases (is_recent now (lookup k m))) [
  | inl e ↦ absurd (ground (arith, rw e at passed))
  | inr e ↦
      let recent : is_recent later (some now) ≡ true = ground arith in
      rw (e, lookup-prune_if_full now k m d, recent) refl
]

packet_key_lem :
    (mp : MeshPacketData) → IsU32 mp.from → IsU32 mp.id → packet_key mp ≡ mp.from * 2 ^ 32 + mp.id
unfolding packet_key
packet_key_lem mp hf hi =
    ap (λ f. bit_or f mp.id) (ground arith) ∙ bit_or-high_low 32 mp.from mp.id hi

packet_key-injective :
    (mp mq : MeshPacketData)
    → IsU32 mp.from
    → IsU32 mp.id
    → IsU32 mq.from
    → IsU32 mq.id
    → packet_key mp ≡ packet_key mq
    → (mp.from ≡ mq.from) × (mp.id ≡ mq.id)
packet_key-injective mp mq hf hi gf gi e =
    let e' : mp.from * 2 ^ 32 + mp.id ≡ mq.from * 2 ^ 32 + mq.id =
      sym (packet_key_lem mp hf hi) ∙ e ∙ packet_key_lem mq gf gi in
    (omega arith, omega arith)

Forgotten-none : (now : ℕ) (o : Option ℕ) → Forgotten now none o → o ≡ none
Forgotten-none now o (inl e) = e
Forgotten-none now o (inr (gone, old)) = gone

-- A packet with another key passes, if it was not seen before.
see-other :
    (now later k i : ℕ) (m : Seen)
    → IsMap m
    → (see now k m).1 ≡ false
    → i ≢ k
    → lookup i m ≡ none
    → (see later i (see now k m).0).1 ≡ false
unfolding see
see-other now later k i m d passed ne new = elim (Bool-cases (is_recent now (lookup k m))) [
  | inl e ↦ absurd (ground (arith, rw e at passed))
  | inr e ↦
      let gone : lookup i (prune_if_full now (put k now m)) ≡ none =
        Forgotten-none now (lookup i (prune_if_full now (put k now m))) (
          rw (lookup-put_other i k now m ne ∙ new) at
            (prune_if_full-Forgotten now i (put k now m) (put-IsMap k now m d))) in
      rw (e, gone) refl
]

-- Of two packets, of which the first has passed and the second comes at the same time or later, less
-- than 15 seconds behind it, `isDuplicate` drops the second if and only if its sender and its id are
-- those of the first, provided that the filter held no packet of the second's sender and id before.
-- The senders and ids are uint32.
pub is_duplicate_iff :
    (now later : ℕ) (mp mq : MeshPacketData) (m : Seen)
    → IsMap m
    → (IsU32 mp.from × IsU32 mp.id)
    → (IsU32 mq.from × IsU32 mq.id)
    → lookup (packet_key mq) m ≡ none
    → (is_duplicate now mp m).1 ≡ false
    → now ≤ later
    → later < now + dedup_window
    → ((is_duplicate later mq (is_duplicate now mp m).0).1 ≡ true)
      ↔ ((mq.from ≡ mp.from) × (mq.id ≡ mp.id))
unfolding is_duplicate
is_duplicate_iff now later mp mq m d (pf, pi) (qf, qi) new passed h inside = (
  λ dropped. elim (Bool-cases (packet_key mq == packet_key mp)) [
    | inl e ↦ packet_key-injective mq mp qf qi pf pi ((==_iff _ _).0 e)
    | inr e ↦ absurd (
        ground (
          arith,
          see-other now later (packet_key mp) (packet_key mq) m d passed (ground arith) new,
          dropped,
        ))
  ],
  λ (f, i).
      let e : packet_key mq ≡ packet_key mp =
        packet_key_lem mq qf qi ∙ ground arith ∙ sym (packet_key_lem mp pf pi) in
      ap (λ k. (see later k (see now (packet_key mp) m).0).1) e
      ∙ ap (λ r. r.1) (see-again now later (packet_key mp) m d passed h inside),
)
