-- ===== src/Fleetsec/Collision.antt =====
-- New keys for a channel (internal/fleetsec/psk_collision.go, and `RandomPSK` of keys.go). The
-- bytes that `rand.Read` gives to each attempt are a parameter, `none` for an error, and so is what
-- the attempt reads: the keys of the local channels 0 and 1, `none` for a channel that cannot be
-- read, and the rows of the recovery cache, `none` if they cannot be listed.
pub mod Avoided
mod Runs
use diginode_cc.Prelude.{
  ℕ, zero, suc, ◌%◌, ◌^◌, Bool, true, false, not, ◌&&◌, ◌||◌, Option, none, some, List, [], ◌∷◌,
  ◌==◌, if◌then◌else◌, is_empty,
}
use diginode_cc.Fleetsec.Recovery.{RecoveryPsk, channel_hash}

-- `validPSKLengths`
abbrev pub is_valid_length : ℕ → Bool
is_valid_length n = n == 0 || n == 16 || n == 32

-- `RandomPSK`, by the bytes that are read.
unfoldable pub random_psk : ℕ → Option (List ℕ) → Option (List ℕ)
random_psk size bytes =
    if not (is_valid_length size) then none else if size == 0 then some [] else bytes

-- A channel with a key of that hash.
abbrev pub is_hit : ℕ → Option (List ℕ) → Bool
is_hit hash none = false
is_hit hash (some psk) = not (is_empty psk) && channel_hash [] psk == hash

-- A row of the cache with that hash.
abbrev pub is_cached : ℕ → List RecoveryPsk → Bool
is_cached hash [] = false
is_cached hash (r ∷ rs) = let rest = is_cached hash rs in r.psk_hash % 2 ^ 8 == hash || rest

abbrev pub cached : ℕ → Option (List RecoveryPsk) → Bool
cached hash none = false
cached hash (some rows) = is_cached hash rows

-- What a call for a new key comes to.
pub data Generated : Type 0 where
  generated : List ℕ → Generated
  not_random exhausted : Generated

-- `CheckPSKHashCollision`; true is an error.
unfoldable pub check_psk_hash_collision :
    Option (List ℕ) → Option (List ℕ) → Option (List RecoveryPsk) → List ℕ → Bool
check_psk_hash_collision channel0 channel1 rows candidate =
    let hash = channel_hash [] candidate in
    if is_empty candidate
    then false
    else is_hit hash channel0 || is_hit hash channel1 || cached hash rows

-- What the attempts draw, and what each finds in the channels and the cache.
module _ (channel0 channel1 : ℕ → Option (List ℕ)) (rows : ℕ → Option (List RecoveryPsk)) (size : ℕ)
    (read : ℕ → Option (List ℕ)) where
  -- A round of the loop, and what follows it.
  pub attempt : ℕ → Option (List ℕ) → Generated → Generated
  unfolding check_psk_hash_collision
  attempt i none rest = not_random
  attempt i (some psk) rest =
      if check_psk_hash_collision (channel0 i) (channel1 i) (rows i) psk
      then rest
      else generated psk

  -- The rounds from `i` on.
  pub generate_loop : ℕ → ℕ → Generated
  unfolding attempt random_psk
  generate_loop zero i = exhausted
  generate_loop (suc n) i = attempt i (random_psk size (read i)) (generate_loop n (suc i))

  -- `GenerateRandomPSKAvoidCollision`; 0 stands for every number of attempts below 1.
  unfoldable pub generate_random_psk_avoid_collision : ℕ → Generated
  unfolding generate_loop
  generate_random_psk_avoid_collision max_attempts =
      generate_loop (if max_attempts == 0 then 8 else max_attempts) 0
