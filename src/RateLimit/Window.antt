-- ===== src/RateLimit/Window.antt =====
-- How many requests of an address `Allow` lets through in a window (internal/ratelimit/ratelimit.go),
-- among those of other addresses.
use Prim.Native.String.{String}
use Prim.Native.Nat.{min}
use text.Mathlib.Text.{◌==◌ as str_eq}
use text.Mathlib.TextPositions.{eq_refl}
use text.Mathlib.TextEquality.{eq_iff}
use diginode_cc.Prelude.{
  ℕ, suc, ◌+◌, ◌≤◌, ◌≡◌, refl, sym, ap, ◌∙◌, Bool, true, ◌&&◌, Option, none, some, List, [], ◌∷◌,
  All, Bool-cases, inl, inr, leb, if◌then◌else◌, arith,
}
use diginode_cc.RateLimit.{Bucket, Buckets, put, is_expired, allow_entry, allow, allow_all}

-- The requests of an address, and those of them that were let through.
abbrev pub requests : String → List (String × ℕ) → ℕ
requests ip [] = 0
requests ip ((k, t) ∷ rs) = let rest = requests ip rs in if str_eq ip k then suc rest else rest

abbrev pub granted : String → List (String × ℕ) → List Bool → ℕ
granted ip [] oks = 0
granted ip (r ∷ rs) [] = 0
granted ip ((k, t) ∷ rs) (ok ∷ oks) =
    let rest = granted ip rs oks in if str_eq ip k && ok then suc rest else rest

module _ (limit window : ℕ) where
  entry_open :
      (t : ℕ) (b : Bucket)
      → t ≤ b.reset_at
      → allow_entry limit window t (some b)
        ≡ (record b { count = b.count + 1 }, leb (b.count + 1) limit)
  unfolding allow_entry
  entry_open t b h = ground arith

  entry_expired :
      (t : ℕ) (o : Option Bucket)
      → is_expired t o ≡ true
      → allow_entry limit window t o ≡ (record { count = 1; reset_at = t + window }, true)
  unfolding allow_entry
  entry_expired t none e = refl
  entry_expired t (some b) e = rw e refl

  -- A bucket that has counted so many requests lets through those that the limit leaves.
  granted_open :
      (ip : String) (rs : List (String × ℕ)) (m : Buckets) (b : Bucket)
      → m ip ≡ some b
      → All (λ r. r.1 ≤ b.reset_at) rs
      → granted ip rs (allow_all limit window rs m).1 + min b.count limit
        ≡ min (b.count + requests ip rs) limit
  unfolding allow_all allow
  granted_open ip [] m b e h = omega arith
  granted_open ip ((k, t) ∷ rs) m b e (h, hs) = elim (Bool-cases (str_eq ip k)) [
    | inl same ↦
        let here : allow_entry limit window t (m k)
            ≡ (record b { count = b.count + 1 }, leb (b.count + 1) limit) =
          ap (λ i. allow_entry limit window t (m i)) (sym ((eq_iff ip k).0 same))
          ∙ ap (allow_entry limit window t) e
          ∙ entry_open t b h in
        let b' : Bucket = record b { count = b.count + 1 } in
        let ih = granted_open ip rs (put k b' m) b' (rw same refl) hs in
        rw (here, same) (ground (arith, ih))
    | inr other ↦ rw other (granted_open ip rs _ b (rw other e) hs)
  ]

  -- A request of an address that has no bucket, or an expired one, opens a window. Of it and the
  -- requests of that address behind it, all in the window, `Allow` lets through as many as there
  -- are, up to the limit, whatever other addresses ask in between, if the limit is 1 at least.
  pub granted_window :
      (ip : String) (now : ℕ) (rs : List (String × ℕ)) (m : Buckets)
      → 1 ≤ limit
      → is_expired now (m ip) ≡ true
      → All (λ r. r.1 ≤ now + window) rs
      → granted ip ((ip, now) ∷ rs) (allow_all limit window ((ip, now) ∷ rs) m).1
        ≡ min (1 + requests ip rs) limit
  unfolding allow_all allow
  granted_window ip now rs m positive fresh inside =
      let b : Bucket = record { count = 1; reset_at = now + window } in
      let rest = granted_open ip rs (put ip b m) b (rw (eq_refl ip) refl) inside in
      rw (entry_expired now (m ip) fresh, eq_refl ip) (ground (arith, rest))
