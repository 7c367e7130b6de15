-- ===== src/Fleetsec/Collision/Runs.antt =====
-- Runs of the search for a key, and the theorem on them.
use diginode_cc.Prelude.{ℕ, zero, suc, ◌≡◌, refl, Option, none, some, List, [], ◌∷◌}
use diginode_cc.Fleetsec.Recovery.{RecoveryPsk, channel_hash}
use diginode_cc.Fleetsec.Collision.{
  random_psk, generated, check_psk_hash_collision, generate_random_psk_avoid_collision,
}
use diginode_cc.Fleetsec.Collision.Avoided.{IsRight, generate_random_psk_avoid_collision-IsRight}

-- A key of 16 bytes with that hash.
abbrev key_of : ℕ → List ℕ
key_of n = n ∷ 1 ∷ 1 ∷ 2 ∷ 2 ∷ 3 ∷ 3 ∷ 4 ∷ 4 ∷ 5 ∷ 5 ∷ 6 ∷ 6 ∷ 7 ∷ 7 ∷ 0 ∷ []

-- The first attempt draws a key whose hash is 1, and the others one whose hash is 2; channel 0 has
-- the hash 1 and then another, and the cache cannot be listed.
abbrev draws : ℕ → Option (List ℕ)
draws zero = some (key_of 1)
draws (suc n) = some (key_of 2)

abbrev channel0 : ℕ → Option (List ℕ)
channel0 zero = some (1 ∷ [])
channel0 (suc n) = some (3 ∷ [])

abbrev no_channel : ℕ → Option (List ℕ)
no_channel i = none

abbrev no_rows : ℕ → Option (List RecoveryPsk)
no_rows i = none

second_draw :
    generate_random_psk_avoid_collision channel0 no_channel no_rows 16 draws 4
    ≡ generated (key_of 2)
unfolding generate_random_psk_avoid_collision random_psk check_psk_hash_collision channel_hash
second_draw = refl

generate_random_psk_avoid_collision-IsRight_example :
    IsRight channel0 no_channel no_rows 16 draws 0 4
      (generate_random_psk_avoid_collision channel0 no_channel no_rows 16 draws 4)
generate_random_psk_avoid_collision-IsRight_example =
    generate_random_psk_avoid_collision-IsRight channel0 no_channel no_rows 16 draws 4
