-- ===== src/RateLimit.antt =====
-- The rate limiter of internal/ratelimit/ratelimit.go: `Limiter`, `Allow` and a sweep of `cleanup`.
-- The map of buckets is a function from addresses; `limit` and `window` are parameters, and `now`,
-- the reading of the clock, an argument.
pub mod Window
pub mod Sweep
mod Runs
use Prim.Native.String.{String}
use text.Mathlib.Text.{◌==◌ as str_eq}
use diginode_cc.Prelude.{
  ℕ, ◌+◌, Bool, true, false, Option, none, some, List, [], ◌∷◌, ltb, leb, if◌then◌else◌,
}

-- `bucket`
pub record Bucket : Type 0 where
  pub count : ℕ
  pub reset_at : ℕ

abbrev pub Buckets : Type 0
Buckets = String → Option Bucket

abbrev pub put : String → Bucket → Buckets → Buckets
put ip b m k = if str_eq k ip then some b else m k

-- `!ok || now.After(b.resetAt)`
abbrev pub is_expired : ℕ → Option Bucket → Bool
is_expired now none = true
is_expired now (some b) = ltb b.reset_at now

-- One sweep of `cleanup`.
unfoldable pub sweep : ℕ → Buckets → Buckets
sweep now m k = if is_expired now (m k) then none else m k

module _ (limit window : ℕ) where
  -- `Allow` on the entry of the address: the entry that it leaves, and its answer.
  unfoldable pub allow_entry : ℕ → Option Bucket → Bucket × Bool
  allow_entry now none = (record { count = 1; reset_at = now + window }, true)
  allow_entry now (some b) =
      if ltb b.reset_at now
      then (record { count = 1; reset_at = now + window }, true)
      else (record b { count = b.count + 1 }, leb (b.count + 1) limit)

  unfoldable pub allow : String → ℕ → Buckets → Buckets × Bool
  unfolding allow_entry
  allow ip now m = let (b, ok) = allow_entry now (m ip) in (put ip b m, ok)

  -- Requests in the order in which they come, with the answers.
  unfoldable pub allow_all : List (String × ℕ) → Buckets → Buckets × List Bool
  unfolding allow
  allow_all [] m = (m, [])
  allow_all ((ip, now) ∷ rs) m =
      let (m', ok) = allow ip now m in let (m'', oks) = allow_all rs m' in (m'', ok ∷ oks)
