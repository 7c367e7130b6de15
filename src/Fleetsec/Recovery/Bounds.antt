-- ===== src/Fleetsec/Recovery/Bounds.antt =====
-- The tables that the statements make (internal/fleetsec/recovery_store.go).
use diginode_cc.Prelude.{ℕ, ◌≤◌, ◌≡◌, refl, Option, List, [], ◌∷◌, length, arith}
use diginode_cc.Prelude.Sets.{length-bounded}
use diginode_cc.Fleetsec.Recovery.{
  RecoveryPsk, slots, first_slot, slot_count, add_recovery_psk, delete_recovery_psk_by_slot,
}
use diginode_cc.Fleetsec.Recovery.Slots.{IsValid, add_recovery_psk-IsValid, delete-IsValid}

-- The statements that change the table.
pub data Step (rows : List RecoveryPsk) : List RecoveryPsk → Type 0 where
  add_step :
      (now : ℕ) (fp psk : List ℕ) (hash : ℕ) (rotation : Option ℕ)
      → Step rows (add_recovery_psk now fp psk hash rotation rows).0
  delete_step : (slot : ℕ) → Step rows (delete_recovery_psk_by_slot slot rows)

-- The tables that they make of an empty one.
pub data Reachable : List RecoveryPsk → Type 0 where
  start : Reachable []
  step : {rows rows' : List RecoveryPsk} → Reachable rows → Step rows rows' → Reachable rows'

Step-IsValid : {rows rows' : List RecoveryPsk} → Step rows rows' → IsValid rows → IsValid rows'
Step-IsValid {rows} (add_step now fp psk hash rotation) v =
    add_recovery_psk-IsValid now fp psk hash rotation rows v
Step-IsValid {rows} (delete_step slot) v = delete-IsValid slot rows v

table-IsValid : {rows : List RecoveryPsk} → Reachable rows → IsValid rows
table-IsValid start = (tt, tt, tt)
table-IsValid (step r s) = Step-IsValid s (table-IsValid r)

length-slots : (rows : List RecoveryPsk) → length (slots rows) ≡ length rows
length-slots [] = refl
length-slots (r ∷ rs) = omega (arith, length-slots rs)

-- In every table that the statements can make of an empty one, the rows stand in different slots
-- from 2 to 7, no two have one fingerprint, and there are at most 6.
pub Reachable-IsValid :
    {rows : List RecoveryPsk} → Reachable rows → IsValid rows × (length rows ≤ slot_count)
Reachable-IsValid {rows} r =
    let v = table-IsValid r in
    let bound = length-bounded first_slot slot_count (slots rows) v.0 v.1 in
    (v, omega (arith, bound, length-slots rows))
