-- ===== src/RateLimit/Sweep.antt =====
-- `cleanup` against `Allow` (internal/ratelimit/ratelimit.go): a bucket that has expired is read as
-- a missing one.
use Prim.Native.String.{String}
use text.Mathlib.Text.{◌==◌ as str_eq}
use diginode_cc.Prelude.{
  ℕ, ◌≤◌, ◌≡◌, refl, sym, ap, ◌∙◌, true, Option, none, some, List, [], ◌∷◌, All, Bool-cases, ◌⊎◌,
  inl, inr, arith,
}
use diginode_cc.RateLimit.{Bucket, Buckets, put, is_expired, sweep, allow_entry, allow, allow_all}

-- One map is the other less some buckets that have expired.
abbrev IsSwept : ℕ → Buckets → Buckets → Type 0
IsSwept now m m' =
    (ip : String) → (m' ip ≡ m ip) ⊎ ((m' ip ≡ none) × (is_expired now (m ip) ≡ true))

sweep-IsSwept : (now : ℕ) (m : Buckets) → IsSwept now m (sweep now m)
unfolding sweep
sweep-IsSwept now m ip = elim (Bool-cases (is_expired now (m ip))) [
  | inl e ↦ inr (rw e refl, e)
  | inr e ↦ inl (rw e refl)
]

module _ (limit window : ℕ) where
  expired_entry :
      (now t : ℕ) (o : Option Bucket)
      → now ≤ t
      → is_expired now o ≡ true
      → allow_entry limit window t o ≡ allow_entry limit window t none
  unfolding allow_entry
  expired_entry now t none later e = refl
  expired_entry now t (some b) later e = ground arith

  same_entry :
      (now t : ℕ) (m m' : Buckets) (ip : String)
      → now ≤ t
      → IsSwept now m m'
      → allow_entry limit window t (m' ip) ≡ allow_entry limit window t (m ip)
  same_entry now t m m' ip later swept = elim (swept ip) [
    | inl e ↦ ap (allow_entry limit window t) e
    | inr (gone, e) ↦
        ap (allow_entry limit window t) gone ∙ sym (expired_entry now t (m ip) later e)
  ]

  put-IsSwept :
      (now : ℕ) (m m' : Buckets) (ip : String) (b : Bucket)
      → IsSwept now m m'
      → IsSwept now (put ip b m) (put ip b m')
  put-IsSwept now m m' ip b swept k = elim (Bool-cases (str_eq k ip)) [
    | inl e ↦ rw e (inl refl)
    | inr e ↦ rw e (swept k)
  ]

  allow_all-IsSwept :
      (now : ℕ) (rs : List (String × ℕ)) (m m' : Buckets)
      → All (λ r. now ≤ r.1) rs
      → IsSwept now m m'
      → (allow_all limit window rs m').1 ≡ (allow_all limit window rs m).1
  unfolding allow_all allow
  allow_all-IsSwept now [] m m' later swept = refl
  allow_all-IsSwept now ((ip, t) ∷ rs) m m' (h, hs) swept = rw (same_entry now t m m' ip h swept) (
      ap (λ oks. (allow_entry limit window t (m ip)).1 ∷ oks)
        (allow_all-IsSwept now rs _ _ hs (put-IsSwept now m m' ip _ swept)))

  -- A sweep changes no answer: requests at times that are not before it are allowed and refused
  -- as they would be without it, whatever addresses they come from.
  pub allow_all-sweep :
      (now : ℕ) (rs : List (String × ℕ)) (m : Buckets)
      → All (λ r. now ≤ r.1) rs
      → (allow_all limit window rs (sweep now m)).1 ≡ (allow_all limit window rs m).1
  allow_all-sweep now rs m later =
      allow_all-IsSwept now rs m (sweep now m) later (sweep-IsSwept now m)
