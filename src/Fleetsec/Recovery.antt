-- ===== src/Fleetsec/Recovery.antt =====
-- The recovery cache of internal/fleetsec/recovery_store.go, and the hashes of channels
-- (internal/fleetsec/keys.go). The table `fleet_recovery_psks` is the list of its rows, a
-- transaction one step, and a time a number; of rows with one time, the database may pick any to
-- evict, and this picks the first. Errors of the database are left out.
pub mod Fingerprints
pub mod Slots
pub mod Oldest
pub mod Kept
pub mod Bounds
pub mod Hook
mod Runs
use diginode_cc.Prelude.{
  ℕ, zero, suc, Bool, true, false, ◌||◌, is_empty, Option, none, some, List, [], ◌∷◌, ◌++◌, leb,
  ◌==◌, if◌then◌else◌, map, bit_xor,
}
use diginode_cc.Prelude.Sets.{contains}
use diginode_cc.Prelude.Text.{eq_text}

pub record RecoveryPsk : Type 0 where
  pub slot : ℕ
  pub fp : List ℕ
  pub psk : List ℕ
  pub psk_hash : ℕ
  pub added_at : ℕ
  pub rotation_id : Option ℕ

-- The two loops of `ChannelHash`.
xor_bytes : ℕ → List ℕ → ℕ
xor_bytes h [] = h
xor_bytes h (b ∷ bs) = xor_bytes (bit_xor h b) bs

unfoldable pub channel_hash : List ℕ → List ℕ → ℕ
unfolding xor_bytes
channel_hash name psk = xor_bytes (xor_bytes 0 name) psk

abbrev pub slots : List RecoveryPsk → List ℕ
slots = map (λ r. r.slot)

-- `SELECT ... WHERE fp = $1`
unfoldable pub find_fp : List ℕ → List RecoveryPsk → Option RecoveryPsk
find_fp fp [] = none
find_fp fp (r ∷ rs) = let rest = find_fp fp rs in if eq_text r.fp fp then some r else rest

-- `GetRecoveryPSKByFP`; `none` is `ErrNotFound`.
unfoldable pub get_recovery_psk_by_fp : List ℕ → List RecoveryPsk → Option RecoveryPsk
unfolding find_fp
get_recovery_psk_by_fp fp rows = find_fp fp rows

-- `UPDATE fleet_recovery_psks SET added_at = now(), rotation_id = $2 WHERE fp = $1`
unfoldable pub refresh : ℕ → List ℕ → Option ℕ → List RecoveryPsk → List RecoveryPsk
refresh now fp rotation [] = []
refresh now fp rotation (r ∷ rs) =
    let rest = refresh now fp rotation rs in
    if eq_text r.fp fp then record r { added_at = now; rotation_id = rotation } ∷ rest else r ∷ rest

-- The loop over the slots from `i` on, for so many rounds.
unfoldable pub free_slot : ℕ → ℕ → List ℕ → Option ℕ
free_slot zero i used = none
free_slot (suc n) i used =
    let rest = free_slot n (suc i) used in if contains i used then rest else some i

abbrev pub first_slot : ℕ
first_slot = 2

abbrev pub slot_count : ℕ
slot_count = 6

-- `ORDER BY added_at ASC LIMIT 1`
pub earlier : RecoveryPsk → Option RecoveryPsk → RecoveryPsk
earlier r none = r
earlier r (some s) = if leb r.added_at s.added_at then r else s

unfoldable pub oldest : List RecoveryPsk → Option RecoveryPsk
unfolding earlier
oldest [] = none
oldest (r ∷ rs) = some (earlier r (oldest rs))

-- `DELETE FROM fleet_recovery_psks WHERE slot = $1`
unfoldable pub delete_recovery_psk_by_slot : ℕ → List RecoveryPsk → List RecoveryPsk
delete_recovery_psk_by_slot slot [] = []
delete_recovery_psk_by_slot slot (r ∷ rs) =
    let rest = delete_recovery_psk_by_slot slot rs in if slot == r.slot then rest else r ∷ rest

abbrev pub insert : RecoveryPsk → List RecoveryPsk → List RecoveryPsk × Option ℕ
insert r rows = (rows ++ (r ∷ []), some r.slot)

-- The row with the oldest time gives up its slot; an empty table has none to give.
pub evicted : RecoveryPsk → Option RecoveryPsk → List RecoveryPsk → List RecoveryPsk × Option ℕ
unfolding delete_recovery_psk_by_slot
evicted new none rows = (rows, none)
evicted new (some old) rows =
    insert (record new { slot = old.slot }) (delete_recovery_psk_by_slot old.slot rows)

pub placed : RecoveryPsk → Option ℕ → List RecoveryPsk → List RecoveryPsk × Option ℕ
unfolding evicted oldest
placed new (some slot) rows = insert (record new { slot = slot }) rows
placed new none rows = evicted new (oldest rows) rows

pub added : RecoveryPsk → Option RecoveryPsk → List RecoveryPsk → List RecoveryPsk × Option ℕ
unfolding refresh free_slot placed
added new (some r) rows = (refresh new.added_at new.fp new.rotation_id rows, some r.slot)
added new none rows = placed new (free_slot slot_count first_slot (slots rows)) rows

-- The row to insert, but for its slot.
abbrev pub new_row : ℕ → List ℕ → List ℕ → ℕ → Option ℕ → RecoveryPsk
new_row now fp psk hash rotation = record {
  slot = 0;
  fp = fp;
  psk = psk;
  psk_hash = hash;
  added_at = now;
  rotation_id = rotation;
}

-- `AddRecoveryPSK`: the slot, or `none` for an error.
unfoldable pub add_recovery_psk :
    ℕ → List ℕ → List ℕ → ℕ → Option ℕ → List RecoveryPsk → List RecoveryPsk × Option ℕ
unfolding added find_fp
add_recovery_psk now fp psk hash rotation rows =
    if is_empty psk || is_empty fp
    then (rows, none)
    else added (new_row now fp psk hash rotation) (find_fp fp rows) rows
