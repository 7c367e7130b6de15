-- ===== src/Fleetsec/Collision/Avoided.antt =====
-- The new key collides with no channel in use (internal/fleetsec/psk_collision.go).
use mathlib.Core.List.{Memᴰ}
use diginode_cc.Prelude.{
  ℕ, zero, suc, ◌+◌, ◌≤◌, ◌<◌, ◌%◌, ◌^◌, ◌≡◌, ◌≢◌, ◌⊎◌, refl, ap, true, false, ◌||◌, Option, none,
  some, List, [], ◌∷◌, ◌==◌, if◌then◌else◌, Bool-cases, inl, inr, is_empty, arith,
}
use diginode_cc.Fleetsec.Recovery.{RecoveryPsk, channel_hash}
use diginode_cc.Fleetsec.Collision.{
  random_psk, is_hit, is_cached, cached, Generated, generated, not_random, exhausted,
  check_psk_hash_collision, attempt, generate_loop, generate_random_psk_avoid_collision,
}

-- No row of the cache has the hash.
is_cached-absent :
    (hash : ℕ) (rs : List RecoveryPsk)
    → is_cached hash rs ≡ false
    → (r : RecoveryPsk) → Memᴰ r rs
    → r.psk_hash % 2 ^ 8 ≢ hash
is_cached-absent hash [] h r m = elim m [ ]
is_cached-absent hash (q ∷ rs) h r (Memᴰ.head e) =
    let same : r.psk_hash ≡ q.psk_hash = ap (λ p. p.psk_hash) e in
    λ hit. absurd (grind (arith, same, hit, h))
is_cached-absent hash (q ∷ rs) h r (Memᴰ.tail m) = is_cached-absent hash rs (ground arith) r m

-- A hash that no channel with a key has, as far as the channels and the cache can be read.
abbrev pub IsFree : Option (List ℕ) → Option (List ℕ) → Option (List RecoveryPsk) → ℕ → Type 0
IsFree channel0 channel1 rows hash =
    ((psk : List ℕ)
      → (channel0 ≡ some psk) ⊎ (channel1 ≡ some psk)
      → is_empty psk ≡ false
      → channel_hash [] psk ≢ hash)
    × ((rs : List RecoveryPsk) (r : RecoveryPsk)
        → rows ≡ some rs
        → Memᴰ r rs
        → r.psk_hash % 2 ^ 8 ≢ hash)

is_hit-absent :
    (hash : ℕ) (o : Option (List ℕ)) (psk : List ℕ)
    → is_hit hash o ≡ false
    → o ≡ some psk
    → is_empty psk ≡ false
    → channel_hash [] psk ≢ hash
is_hit-absent hash o psk h e key =
    let h' : is_hit hash (some psk) ≡ false = rw e at h in
    λ same. absurd (grind (arith, h', key, same))

module _ (channel0 channel1 : Option (List ℕ)) (rows : Option (List RecoveryPsk)) where
  free :
      (psk : List ℕ)
      → check_psk_hash_collision channel0 channel1 rows psk ≡ false
      → is_empty psk ≡ false
      → IsFree channel0 channel1 rows (channel_hash [] psk)
  unfolding check_psk_hash_collision
  free psk h key =
      let h' : is_hit (channel_hash [] psk) channel0
            || is_hit (channel_hash [] psk) channel1
            || cached (channel_hash [] psk) rows
          ≡ false =
        rw key at h in
      (
        (λ other used key'. elim used [
          | inl e ↦ is_hit-absent (channel_hash [] psk) channel0 other (ground arith) e key'
          | inr e ↦ is_hit-absent (channel_hash [] psk) channel1 other (ground arith) e key'
        ]),
        λ rs r e m.
            let kept : cached (channel_hash [] psk) rows ≡ false = ground arith in
            let listed : cached (channel_hash [] psk) (some rs) ≡ false = rw e at kept in
            is_cached-absent (channel_hash [] psk) rs listed r m,
      )

module _ (channel0 channel1 : ℕ → Option (List ℕ)) (rows : ℕ → Option (List RecoveryPsk)) (size : ℕ)
    (read : ℕ → Option (List ℕ)) where
  -- What the rounds from `i` up to `last` come to: a key that one of them drew, and that is empty
  -- or has a free hash; an error of one of them; or none of the keys that they drew may be used.
  abbrev pub IsRight : ℕ → ℕ → Generated → Type 0
  IsRight i last (generated psk) =
      (k : ℕ) × (i ≤ k)
      × (k < last)
      × (random_psk size (read k) ≡ some psk)
      × (is_empty psk ≡ false → IsFree (channel0 k) (channel1 k) (rows k) (channel_hash [] psk))
  IsRight i last not_random = (k : ℕ) × (i ≤ k) × (k < last) × (random_psk size (read k) ≡ none)
  IsRight i last exhausted =
      (k : ℕ)
      → i ≤ k
      → k < last
      → (psk : List ℕ) × (random_psk size (read k) ≡ some psk)
        × (check_psk_hash_collision (channel0 k) (channel1 k) (rows k) psk ≡ true)

  later :
      (i last : ℕ) (psk : List ℕ) (g : Generated)
      → random_psk size (read i) ≡ some psk
      → check_psk_hash_collision (channel0 i) (channel1 i) (rows i) psk ≡ true
      → IsRight (suc i) last g
      → IsRight i last g
  later i last psk (generated q) e c (k, low, high, drawn, free_q) =
      (k, omega arith, high, drawn, free_q)
  later i last psk not_random e c (k, low, high, failed) = (k, omega arith, high, failed)
  later i last psk exhausted e c h = λ k low high. elim (Bool-cases (k == i)) [
    | inl same ↦ let same' : k ≡ i = ground arith in rw same' (psk, e, c)
    | inr other ↦ h k (ground arith) high
  ]

  attempt-IsRight :
      (i last : ℕ) (o : Option (List ℕ)) (g : Generated)
      → i < last
      → random_psk size (read i) ≡ o
      → IsRight (suc i) last g
      → IsRight i last (attempt channel0 channel1 rows size read i o g)
  unfolding attempt
  attempt-IsRight i last none g less e h = (i, omega arith, less, e)
  attempt-IsRight i last (some psk) g less e h =
      elim (Bool-cases (check_psk_hash_collision (channel0 i) (channel1 i) (rows i) psk)) [
        | inl c ↦ rw c (later i last psk g e c h)
        | inr c ↦ rw c (i, omega arith, less, e, free (channel0 i) (channel1 i) (rows i) psk c)
      ]

  generate_loop-IsRight :
      (n i last : ℕ)
      → i + n ≡ last
      → IsRight i last (generate_loop channel0 channel1 rows size read n i)
  unfolding generate_loop
  generate_loop-IsRight zero i last e = λ k low high. absurd (omega arith)
  generate_loop-IsRight (suc n) i last e =
      attempt-IsRight i last (random_psk size (read i))
        (generate_loop channel0 channel1 rows size read n (suc i)) (omega arith) refl
        (generate_loop-IsRight n (suc i) last (omega arith))

  -- The search for a key ends within its attempts, 8 of them if none are given. A
  -- key that it returns was drawn by one of them, and is empty or has a hash that, at that attempt,
  -- no key of the local channels and no row of the recovery cache has, of those that can be read. If it returns
  -- the error of an attempt, that attempt drew no key, and if it gives up, the key of every
  -- attempt collided.
  pub generate_random_psk_avoid_collision-IsRight :
      (max_attempts : ℕ)
      → IsRight 0
          (if max_attempts == 0 then 8 else max_attempts)
          (generate_random_psk_avoid_collision channel0 channel1 rows size read max_attempts)
  unfolding generate_random_psk_avoid_collision
  generate_random_psk_avoid_collision-IsRight max_attempts =
      generate_loop-IsRight (if max_attempts == 0 then 8 else max_attempts) 0
        (if max_attempts == 0 then 8 else max_attempts) (omega arith)
