-- ===== src/Meshtastic/Dedup.antt =====
-- `isDuplicate` of internal/meshtastic/dispatcher.go. A time is a number of nanoseconds.
pub mod Unpruned
pub mod Window
use diginode_cc.Prelude.{
  ℕ, ◌+◌, ◌*◌, ◌%◌, ◌^◌, bit_or, Bool, true, false, Option, none, some, List, [], ◌∷◌, ltb, ◌==◌,
  if◌then◌else◌, length,
}
use diginode_cc.Prelude.Assoc.{lookup, put}
use diginode_cc.Serial.Packet.{MeshPacketData}

abbrev pub Seen : Type 0
Seen = List (ℕ × ℕ)

-- `15*time.Second`
abbrev pub dedup_window : ℕ
dedup_window = 15000000000

abbrev pub max_seen : ℕ
max_seen = 512

-- `uint64(mp.From)<<32 | uint64(mp.ID)`
unfoldable pub packet_key : MeshPacketData → ℕ
packet_key mp = bit_or ((mp.from * 2 ^ 32) % 2 ^ 64) mp.id

-- `now.Sub(last) < 15*time.Second`, if there is a last time.
abbrev pub is_recent : ℕ → Option ℕ → Bool
is_recent now none = false
is_recent now (some last) = ltb now (last + dedup_window)

-- The loop that deletes the entries with `t.Before(cutoff)`.
pub prune : ℕ → Seen → Seen
prune now [] = []
prune now ((k, t) ∷ m) =
    let rest = prune now m in if ltb (t + dedup_window) now then rest else (k, t) ∷ rest

pub prune_if_full : ℕ → Seen → Seen
unfolding prune
prune_if_full now m = if ltb max_seen (length m) then prune now m else m

-- `isDuplicate` by the packet's key.
unfoldable pub see : ℕ → ℕ → Seen → Seen × Bool
unfolding prune_if_full
see now k m =
    if is_recent now (lookup k m) then (m, true) else (prune_if_full now (put k now m), false)

unfoldable pub is_duplicate : ℕ → MeshPacketData → Seen → Seen × Bool
unfolding see packet_key
is_duplicate now mp m = see now (packet_key mp) m
