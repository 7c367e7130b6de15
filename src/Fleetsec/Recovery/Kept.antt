-- ===== src/Fleetsec/Recovery/Kept.antt =====
-- What `AddRecoveryPSK` keeps and what it evicts (internal/fleetsec/recovery_store.go).
use mathlib.Core.Path.{subst}
use diginode_cc.Prelude.{
  ℕ, zero, suc, ◌+◌, ◌≤◌, ◌<◌, ◌≡◌, refl, sym, ◌∙◌, true, false, Option, none, some, List, [], ◌∷◌,
  ◌++◌, ◌⊎◌, ◌==◌, Bool-cases, inl, inr, is_empty, arith,
}
use diginode_cc.Prelude.Sets.{contains, AreDistinct}
use diginode_cc.Prelude.Text.{eq_text, eq_text_self}
use diginode_cc.Fleetsec.Recovery.{
  RecoveryPsk, slots, find_fp, free_slot, first_slot, slot_count, oldest,
  delete_recovery_psk_by_slot, insert, evicted, placed, added, new_row, add_recovery_psk,
}
use diginode_cc.Fleetsec.Recovery.Slots.{InRange, IsValid}
use diginode_cc.Fleetsec.Recovery.Oldest.{
  Holds-same, find_fp-Holds, oldest-Holds, IsOldest, oldest-IsOldest,
}
use diginode_cc.Fleetsec.Recovery.Fingerprints.{find_fp-delete}

-- Every slot is in use.
abbrev pub IsFull : List RecoveryPsk → Type 0
IsFull rows = (s : ℕ) → InRange s → contains s (slots rows) ≡ true

free_slot-none :
    (n i s : ℕ) (used : List ℕ)
    → free_slot n i used ≡ none
    → i ≤ s
    → s < i + n
    → contains s used ≡ true
unfolding free_slot
free_slot-none zero i s used h low high = absurd (omega arith)
free_slot-none (suc n) i s used h low high = elim (Bool-cases (contains i used)) [
  | inl e ↦ elim (Bool-cases (s == i)) [
    | inl same ↦ grind (arith, e, same)
    | inr other ↦ free_slot-none n (suc i) s used (rw e at h) (ground arith) (omega arith)
  ]
  | inr e ↦ grind (arith, e, h)
]

insert-found :
    (r : RecoveryPsk) (rs : List RecoveryPsk)
    → find_fp r.fp rs ≡ none
    → find_fp r.fp (rs ++ (r ∷ [])) ≡ some r
unfolding find_fp
insert-found r [] h = rw (eq_text_self r.fp) refl
insert-found r (q ∷ rs) h = elim (Bool-cases (eq_text q.fp r.fp)) [
  | inl e ↦ cc
  | inr e ↦ rw e (insert-found r rs (rw e at h))
]

insert-other :
    (g : List ℕ) (r : RecoveryPsk) (rs : List RecoveryPsk)
    → eq_text r.fp g ≡ false
    → find_fp g (rs ++ (r ∷ [])) ≡ find_fp g rs
unfolding find_fp
insert-other g r [] h = rw h refl
insert-other g r (q ∷ rs) h = elim (Bool-cases (eq_text q.fp g)) [
  | inl e ↦ rw e refl
  | inr e ↦ rw e (insert-other g r rs h)
]

-- A row is kept, or it is the one in the slot.
delete-Kept :
    (g : List ℕ) (slot : ℕ) (rs : List RecoveryPsk)
    → (find_fp g (delete_recovery_psk_by_slot slot rs) ≡ find_fp g rs)
      ⊎ ((q : RecoveryPsk) × (find_fp g rs ≡ some q) × (q.slot ≡ slot))
unfolding find_fp delete_recovery_psk_by_slot
delete-Kept g slot [] = inl refl
delete-Kept g slot (r ∷ rs) = elim (Bool-cases (eq_text r.fp g)) [
  | inl e ↦ elim (Bool-cases (slot == r.slot)) [
    | inl t ↦ inr (r, rw e refl, ground arith)
    | inr t ↦ inl (rw (t, e) refl)
  ]
  | inr e ↦ elim (Bool-cases (slot == r.slot)) [
    | inl t ↦ rw (t, e) (delete-Kept g slot rs)
    | inr t ↦ rw (t, e) (delete-Kept g slot rs)
  ]
]

-- The row of a fingerprint is what it was, or the table was full and it was an oldest row.
abbrev pub KeptOrOldest : List ℕ → List RecoveryPsk → List RecoveryPsk → Type 0
KeptOrOldest g rows rows' =
    (find_fp g rows' ≡ find_fp g rows)
    ⊎ ((q : RecoveryPsk) × (find_fp g rows ≡ some q) × IsFull rows × IsOldest q rows)

-- What the transaction gives for a fingerprint that has no row: a slot, and a row in it.
abbrev pub IsPlaced : RecoveryPsk → List RecoveryPsk → List RecoveryPsk × Option ℕ → Type 0
IsPlaced new rows (rows', o) =
    ((s : ℕ) × (o ≡ some s) × (find_fp new.fp rows' ≡ some (record new { slot = s })))
    × ((g : List ℕ) → eq_text new.fp g ≡ false → KeptOrOldest g rows rows')

insert-IsPlaced :
    (new : RecoveryPsk) (slot : ℕ) (rows : List RecoveryPsk)
    → find_fp new.fp rows ≡ none
    → IsPlaced new rows (insert (record new { slot = slot }) rows)
insert-IsPlaced new slot rows absent = (
  (slot, refl, insert-found (record new { slot = slot }) rows absent),
  λ g other. inl (insert-other g (record new { slot = slot }) rows other),
)

evicted-IsPlaced :
    (new old : RecoveryPsk) (rows : List RecoveryPsk)
    → oldest rows ≡ some old
    → IsFull rows
    → find_fp new.fp rows ≡ none
    → AreDistinct (slots rows)
    → IsPlaced new rows (evicted new (some old) rows)
unfolding evicted
evicted-IsPlaced new old rows e full absent d =
    let row : RecoveryPsk = record new { slot = old.slot } in
    let left : List RecoveryPsk = delete_recovery_psk_by_slot old.slot rows in
    (
      (old.slot, refl, insert-found row left (find_fp-delete new.fp old.slot rows absent)),
      λ g other. elim (delete-Kept g old.slot rows) [
        | inl kept ↦ inl (insert-other g row left other ∙ kept)
        | inr (q, found, same) ↦
            let this : old ≡ q = sym (
              Holds-same q old rows d (find_fp-Holds g q rows found) (oldest-Holds rows old e)
                same) in
            inr (q, found, full, subst (λ r. IsOldest r rows) this (oldest-IsOldest rows old e))
      ],
    )

full-oldest : (rows : List RecoveryPsk) → IsFull rows → oldest rows ≡ none → ⊥
unfolding oldest
full-oldest [] full e = grind (arith, full first_slot (omega arith, omega arith))
full-oldest (r ∷ rs) full e = cc

full-IsPlaced :
    (new : RecoveryPsk) (o : Option RecoveryPsk) (rows : List RecoveryPsk)
    → oldest rows ≡ o
    → IsFull rows
    → find_fp new.fp rows ≡ none
    → AreDistinct (slots rows)
    → IsPlaced new rows (evicted new o rows)
full-IsPlaced new none rows e full absent d = absurd (full-oldest rows full e)
full-IsPlaced new (some old) rows e full absent d = evicted-IsPlaced new old rows e full absent d

placed-IsPlaced :
    (new : RecoveryPsk) (o : Option ℕ) (rows : List RecoveryPsk)
    → free_slot slot_count first_slot (slots rows) ≡ o
    → find_fp new.fp rows ≡ none
    → AreDistinct (slots rows)
    → IsPlaced new rows (placed new o rows)
unfolding placed
placed-IsPlaced new (some slot) rows e absent d = insert-IsPlaced new slot rows absent
placed-IsPlaced new none rows e absent d =
    full-IsPlaced new (oldest rows) rows refl
      (λ s range. free_slot-none slot_count first_slot s (slots rows) e range.0 range.1) absent d

-- `AddRecoveryPSK`, on a table that keeps its constraints and a fingerprint that it does not hold,
-- with a key and a fingerprint that are not empty, gives a slot and puts the key into it; the row
-- of any other fingerprint is as it was, unless all the slots were in use and that row was an
-- oldest one.
pub add_recovery_psk-IsPlaced :
    (now : ℕ) (fp psk : List ℕ) (hash : ℕ) (rotation : Option ℕ) (rows : List RecoveryPsk)
    → IsValid rows
    → is_empty psk ≡ false
    → is_empty fp ≡ false
    → find_fp fp rows ≡ none
    → IsPlaced
        (new_row now fp psk hash rotation)
        rows
        (add_recovery_psk now fp psk hash rotation rows)
unfolding add_recovery_psk added
add_recovery_psk-IsPlaced now fp psk hash rotation rows v key name absent =
    rw (key, name, absent)
      (placed-IsPlaced (new_row now fp psk hash rotation) _ rows refl absent v.0)
