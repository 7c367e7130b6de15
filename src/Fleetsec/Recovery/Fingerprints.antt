-- ===== src/Fleetsec/Recovery/Fingerprints.antt =====
-- The fingerprints of the recovery cache (internal/fleetsec/recovery_store.go), each with one row.
use diginode_cc.Prelude.{
  ℕ, ◌≡◌, refl, ap, false, Option, none, List, [], ◌∷◌, ◌++◌, ◌==◌, if-both, Bool-cases, inl, inr,
}
use diginode_cc.Prelude.Text.{eq_text, eq_text_self, eq_text_sound}
use diginode_cc.Fleetsec.Recovery.{RecoveryPsk, find_fp, refresh, delete_recovery_psk_by_slot}

-- No two rows have one fingerprint.
abbrev pub AreUnique : List RecoveryPsk → Type 0
AreUnique [] = Unit
AreUnique (r ∷ rs) = (find_fp r.fp rs ≡ none) × AreUnique rs

find_fp-append :
    (fp : List ℕ) (rs : List RecoveryPsk) (r : RecoveryPsk)
    → find_fp fp rs ≡ none
    → eq_text r.fp fp ≡ false
    → find_fp fp (rs ++ (r ∷ [])) ≡ none
unfolding find_fp
find_fp-append fp [] r h e = rw e refl
find_fp-append fp (q ∷ rs) r h e = elim (Bool-cases (eq_text q.fp fp)) [
  | inl t ↦ cc
  | inr t ↦ rw t (find_fp-append fp rs r (rw t at h) e)
]

-- No other row has the fingerprint of a row.
apart : (xs ys : List ℕ) → eq_text xs ys ≡ false → eq_text ys xs ≡ false
apart xs ys h = elim (Bool-cases (eq_text ys xs)) [
  | inl e ↦
      let same : ys ≡ xs = eq_text_sound ys xs e in cc (h, ap (eq_text xs) same, eq_text_self xs)
  | inr e ↦ e
]

pub append-AreUnique :
    (rs : List RecoveryPsk) (r : RecoveryPsk)
    → find_fp r.fp rs ≡ none
    → AreUnique rs
    → AreUnique (rs ++ (r ∷ []))
unfolding find_fp
append-AreUnique [] r h u = (refl, tt)
append-AreUnique (q ∷ rs) r h (new, u) = elim (Bool-cases (eq_text q.fp r.fp)) [
  | inl t ↦ cc
  | inr t ↦ (find_fp-append q.fp rs r new (apart q.fp r.fp t), append-AreUnique rs r (rw t at h) u)
]

pub find_fp-delete :
    (fp : List ℕ) (slot : ℕ) (rs : List RecoveryPsk)
    → find_fp fp rs ≡ none
    → find_fp fp (delete_recovery_psk_by_slot slot rs) ≡ none
unfolding find_fp delete_recovery_psk_by_slot
find_fp-delete fp slot [] h = refl
find_fp-delete fp slot (r ∷ rs) h = elim (Bool-cases (eq_text r.fp fp)) [
  | inl t ↦ cc
  | inr t ↦
      let rest = find_fp-delete fp slot rs (rw t at h) in
      if-both (λ l. find_fp fp l ≡ none) (slot == r.slot) _ _ rest (rw t rest)
]

pub delete-AreUnique :
    (slot : ℕ) (rs : List RecoveryPsk)
    → AreUnique rs
    → AreUnique (delete_recovery_psk_by_slot slot rs)
unfolding delete_recovery_psk_by_slot
delete-AreUnique slot [] u = tt
delete-AreUnique slot (r ∷ rs) (new, u) =
    let rest = delete-AreUnique slot rs u in
    if-both AreUnique (slot == r.slot) _ _ rest (find_fp-delete r.fp slot rs new, rest)

find_fp-refresh :
    (now : ℕ) (fp g : List ℕ) (rotation : Option ℕ) (rs : List RecoveryPsk)
    → find_fp g rs ≡ none
    → find_fp g (refresh now fp rotation rs) ≡ none
unfolding find_fp refresh
find_fp-refresh now fp g rotation [] h = refl
find_fp-refresh now fp g rotation (r ∷ rs) h = elim (Bool-cases (eq_text r.fp g)) [
  | inl t ↦ cc
  | inr t ↦
      let rest = find_fp-refresh now fp g rotation rs (rw t at h) in
      if-both (λ l. find_fp g l ≡ none) (eq_text r.fp fp) _ _ (rw t rest) (rw t rest)
]

pub refresh-AreUnique :
    (now : ℕ) (fp : List ℕ) (rotation : Option ℕ) (rs : List RecoveryPsk)
    → AreUnique rs
    → AreUnique (refresh now fp rotation rs)
unfolding refresh
refresh-AreUnique now fp rotation [] u = tt
refresh-AreUnique now fp rotation (r ∷ rs) (new, u) =
    let rest = refresh-AreUnique now fp rotation rs u in
    let new' = find_fp-refresh now fp r.fp rotation rs new in
    if-both AreUnique (eq_text r.fp fp) _ _ (new', rest) (new', rest)
