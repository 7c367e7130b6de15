-- ===== src/RateLimit/Runs.antt =====
-- Runs of the rate limiter of internal/ratelimit, and the theorems on them.
use Prim.Native.String.{String}
use diginode_cc.Prelude.{ℕ, ◌≡◌, refl, true, false, none, List, [], ◌∷◌, arith}
use diginode_cc.RateLimit.{Buckets, sweep, allow_all}
use diginode_cc.RateLimit.Window.{granted, granted_window}
use diginode_cc.RateLimit.Sweep.{allow_all-sweep}

abbrev no_buckets : Buckets
no_buckets ip = none

-- Two addresses, of which the first asks three times, and once more behind its window.
abbrev asked : List (String × ℕ)
asked = ("10.0.0.8", 11) ∷ ("10.0.0.7", 12) ∷ ("10.0.0.7", 40) ∷ []

answers : (allow_all 2 60 (("10.0.0.7", 10) ∷ asked) no_buckets).1 ≡ true ∷ true ∷ true ∷ false ∷ []
unfolding allow_all
answers = refl

opens_again :
    (allow_all 1 60 (("10.0.0.7", 10) ∷ ("10.0.0.7", 70) ∷ ("10.0.0.7", 71) ∷ []) no_buckets).1
    ≡ true ∷ false ∷ true ∷ []
unfolding allow_all
opens_again = refl

granted_window_example :
    granted "10.0.0.7"
      (("10.0.0.7", 10) ∷ asked)
      (allow_all 2 60 (("10.0.0.7", 10) ∷ asked) no_buckets).1
    ≡ 2
granted_window_example =
    granted_window 2 60 "10.0.0.7" 10 asked no_buckets (omega arith) refl
      (omega arith, (omega arith, (omega arith, tt)))

allow_all-sweep_example :
    (allow_all 2 60 asked (sweep 11 (allow_all 2 60 (("10.0.0.7", 0) ∷ []) no_buckets).0)).1
    ≡ (allow_all 2 60 asked (allow_all 2 60 (("10.0.0.7", 0) ∷ []) no_buckets).0).1
allow_all-sweep_example =
    allow_all-sweep 2 60 11 asked (allow_all 2 60 (("10.0.0.7", 0) ∷ []) no_buckets).0
      (omega arith, (omega arith, (omega arith, tt)))
