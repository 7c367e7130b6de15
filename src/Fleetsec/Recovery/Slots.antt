-- ===== src/Fleetsec/Recovery/Slots.antt =====
-- The slots of the recovery cache (internal/fleetsec/recovery_store.go): what the table's
-- constraints ask for, kept by every statement.
use mathlib.Core.Option.{some-injective}
use mathlib.Core.Path.{subst}
use diginode_cc.Prelude.{
  ℕ, zero, suc, ◌+◌, ◌≤◌, ◌<◌, ◌≡◌, refl, ap, false, Option, none, some, List, [], ◌∷◌, ◌++◌, ◌||◌,
  leb, ◌==◌, if-both, Bool-cases, inl, inr, All, is_empty, arith,
}
use diginode_cc.Prelude.Sets.{
  contains, remove, AreDistinct, contains-remove, remove-AreDistinct, append-AreDistinct,
}
use diginode_cc.Prelude.Text.{eq_text}
use diginode_cc.Fleetsec.Recovery.{
  RecoveryPsk, slots, find_fp, refresh, free_slot, first_slot, slot_count, earlier, oldest,
  delete_recovery_psk_by_slot, insert, evicted, placed, added, new_row, add_recovery_psk,
}
use diginode_cc.Fleetsec.Recovery.Fingerprints.{
  AreUnique, append-AreUnique, delete-AreUnique, refresh-AreUnique, find_fp-delete,
}

abbrev pub InRange : ℕ → Type 0
InRange s = (first_slot ≤ s) × (s < first_slot + slot_count)

abbrev pub IsValid : List RecoveryPsk → Type 0
IsValid rows = AreDistinct (slots rows) × All InRange (slots rows) × AreUnique rows

slots-append :
    (rs : List RecoveryPsk) (r : RecoveryPsk) → slots (rs ++ (r ∷ [])) ≡ slots rs ++ (r.slot ∷ [])
slots-append [] r = refl
slots-append (q ∷ rs) r = ap (λ l. q.slot ∷ l) (slots-append rs r)

pub slots-refresh :
    (now : ℕ) (fp : List ℕ) (rotation : Option ℕ) (rs : List RecoveryPsk)
    → slots (refresh now fp rotation rs) ≡ slots rs
unfolding refresh
slots-refresh now fp rotation [] = refl
slots-refresh now fp rotation (r ∷ rs) =
    let e = slots-refresh now fp rotation rs in
    elim (Bool-cases (eq_text r.fp fp)) [
      | inl t ↦ rw t (ap (λ l. r.slot ∷ l) e)
      | inr t ↦ rw t (ap (λ l. r.slot ∷ l) e)
    ]

slots-delete :
    (slot : ℕ) (rs : List RecoveryPsk)
    → slots (delete_recovery_psk_by_slot slot rs) ≡ remove slot (slots rs)
unfolding delete_recovery_psk_by_slot
slots-delete slot [] = refl
slots-delete slot (r ∷ rs) = elim (Bool-cases (slot == r.slot)) [
  | inl e ↦ rw e (slots-delete slot rs)
  | inr e ↦ rw e (ap (λ l. r.slot ∷ l) (slots-delete slot rs))
]

append-InRange : (x : ℕ) (ys : List ℕ) → InRange x → All InRange ys → All InRange (ys ++ (x ∷ []))
append-InRange x [] p h = (p, tt)
append-InRange x (y ∷ ys) p (q, h) = (q, append-InRange x ys p h)

remove-InRange : (x : ℕ) (ys : List ℕ) → All InRange ys → All InRange (remove x ys)
remove-InRange x [] h = tt
remove-InRange x (y ∷ ys) (q, h) =
    if-both (All InRange) (x == y) _ _ (remove-InRange x ys h) (q, remove-InRange x ys h)

-- A free slot is one of those looked at, and is not in use.
pub free_slot-IsFree :
    (n i s : ℕ) (used : List ℕ)
    → free_slot n i used ≡ some s
    → (contains s used ≡ false) × (i ≤ s) × (s < i + n)
unfolding free_slot
free_slot-IsFree zero i s used h = cc
free_slot-IsFree (suc n) i s used h = elim (Bool-cases (contains i used)) [
  | inl e ↦
      let (free, low, high) = free_slot-IsFree n (suc i) s used (rw e at h) in
      (free, omega arith, omega arith)
  | inr e ↦ grind (arith, e, h)
]

pub earlier-elim :
    (P : RecoveryPsk → Type 0) (r : RecoveryPsk) (o : Option RecoveryPsk)
    → P r
    → ((s : RecoveryPsk) → o ≡ some s → P s)
    → P (earlier r o)
unfolding earlier
earlier-elim P r none p h = p
earlier-elim P r (some s) p h = if-both P (leb r.added_at s.added_at) _ _ p (h s refl)

oldest-InRange :
    (rows : List RecoveryPsk) (old : RecoveryPsk)
    → oldest rows ≡ some old
    → All InRange (slots rows)
    → InRange old.slot
unfolding oldest
oldest-InRange [] old e h = cc
oldest-InRange (r ∷ rs) old e (p, ps) =
    subst (λ q. InRange q.slot) (some-injective (earlier r (oldest rs)) old e)
      (earlier-elim (λ q. InRange q.slot) r (oldest rs) p (λ s e'. oldest-InRange rs s e' ps))

pub delete-IsValid :
    (slot : ℕ) (rows : List RecoveryPsk)
    → IsValid rows
    → IsValid (delete_recovery_psk_by_slot slot rows)
delete-IsValid slot rows (d, range, u) = rw (slots-delete slot rows) (
  remove-AreDistinct slot (slots rows) d,
  remove-InRange slot (slots rows) range,
  delete-AreUnique slot rows u,
)

insert-IsValid :
    (r : RecoveryPsk) (rows : List RecoveryPsk)
    → contains r.slot (slots rows) ≡ false
    → InRange r.slot
    → find_fp r.fp rows ≡ none
    → IsValid rows
    → IsValid (insert r rows).0
insert-IsValid r rows free p new (d, range, u) = rw (slots-append rows r) (
  append-AreDistinct r.slot (slots rows) free d,
  append-InRange r.slot (slots rows) p range,
  append-AreUnique rows r new u,
)

delete-free :
    (slot : ℕ) (rows : List RecoveryPsk)
    → contains slot (slots (delete_recovery_psk_by_slot slot rows)) ≡ false
delete-free slot rows = rw (slots-delete slot rows) (contains-remove slot (slots rows))

evicted-IsValid :
    (new : RecoveryPsk) (o : Option RecoveryPsk) (rows : List RecoveryPsk)
    → oldest rows ≡ o
    → find_fp new.fp rows ≡ none
    → IsValid rows
    → IsValid (evicted new o rows).0
unfolding evicted
evicted-IsValid new none rows e absent v = v
evicted-IsValid new (some old) rows e absent v =
    insert-IsValid (record new { slot = old.slot }) (delete_recovery_psk_by_slot old.slot rows)
      (delete-free old.slot rows) (oldest-InRange rows old e v.1)
      (find_fp-delete new.fp old.slot rows absent) (delete-IsValid old.slot rows v)

placed-IsValid :
    (new : RecoveryPsk) (o : Option ℕ) (rows : List RecoveryPsk)
    → free_slot slot_count first_slot (slots rows) ≡ o
    → find_fp new.fp rows ≡ none
    → IsValid rows
    → IsValid (placed new o rows).0
unfolding placed
placed-IsValid new (some slot) rows e absent v =
    let (free, low, high) = free_slot-IsFree slot_count first_slot slot (slots rows) e in
    insert-IsValid (record new { slot = slot }) rows free (low, high) absent v
placed-IsValid new none rows e absent v = evicted-IsValid new (oldest rows) rows refl absent v

added-IsValid :
    (new : RecoveryPsk) (o : Option RecoveryPsk) (rows : List RecoveryPsk)
    → find_fp new.fp rows ≡ o
    → IsValid rows
    → IsValid (added new o rows).0
unfolding added
added-IsValid new (some r) rows e (d, range, u) =
    rw (slots-refresh new.added_at new.fp new.rotation_id rows)
      (d, range, refresh-AreUnique new.added_at new.fp new.rotation_id rows u)
added-IsValid new none rows e v =
    placed-IsValid new (free_slot slot_count first_slot (slots rows)) rows refl e v

pub add_recovery_psk-IsValid :
    (now : ℕ) (fp psk : List ℕ) (hash : ℕ) (rotation : Option ℕ) (rows : List RecoveryPsk)
    → IsValid rows
    → IsValid (add_recovery_psk now fp psk hash rotation rows).0
unfolding add_recovery_psk
add_recovery_psk-IsValid now fp psk hash rotation rows v =
    if-both {A = List RecoveryPsk × Option ℕ} (λ r. IsValid r.0) (is_empty psk || is_empty fp) _ _ v
      (added-IsValid (new_row now fp psk hash rotation) (find_fp fp rows) rows refl v)
