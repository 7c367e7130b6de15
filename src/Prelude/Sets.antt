-- ===== src/Prelude/Sets.antt =====
-- Finite sets of numbers as lists.
use Prim.Native.Nat.{ℕ, zero, suc, ◌+◌, ◌≤◌, ◌<◌}
use mathlib.Core.Path.{◌≡◌, refl}
use mathlib.Core.Logic.{◌≢◌, ◌⊎◌, inl, inr}
use mathlib.Core.Bool.{Bool, true, false, ◌||◌}
use mathlib.Core.List.{List, [], ◌∷◌, ◌++◌}
use native.Mathlib.Omega.{arith}
use diginode_cc.Prelude.Tests.{◌==◌, ==_iff, if◌then◌else◌, Bool-cases}
use diginode_cc.Prelude.Lists.{length, All, All-map}

abbrev pub contains : ℕ → List ℕ → Bool
contains x [] = false
contains x (y ∷ ys) = let rest = contains x ys in x == y || rest

abbrev pub remove : ℕ → List ℕ → List ℕ
remove x [] = []
remove x (y ∷ ys) = let rest = remove x ys in if x == y then rest else y ∷ rest

pub contains-remove : (x : ℕ) (ys : List ℕ) → contains x (remove x ys) ≡ false
contains-remove x [] = refl
contains-remove x (y ∷ ys) = ground (arith, contains-remove x ys)

pub contains-remove_other :
    (x z : ℕ) (ys : List ℕ) → x ≢ z → contains x (remove z ys) ≡ contains x ys
contains-remove_other x z [] h = refl
contains-remove_other x z (y ∷ ys) h = ground (arith, contains-remove_other x z ys h)

-- What is left was there.
pub contains-remove_back :
    (x z : ℕ) (ys : List ℕ) → contains x (remove z ys) ≡ true → contains x ys ≡ true
contains-remove_back x z [] h = h
contains-remove_back x z (y ∷ ys) h = ground (arith, contains-remove_back x z ys)

pub length-remove : (x : ℕ) (ys : List ℕ) → length (remove x ys) ≤ length ys
length-remove x [] = omega arith
length-remove x (y ∷ ys) = ground (arith, length-remove x ys)

pub contains-remove_ne :
    (x z : ℕ) (ys : List ℕ) → contains x (remove z ys) ≡ true → (x == z) ≡ false
contains-remove_ne x z [] h = ground arith
contains-remove_ne x z (y ∷ ys) h = ground (arith, contains-remove_ne x z ys)

pub contains-cons :
    (x y : ℕ) (ys : List ℕ) → contains x (y ∷ ys) ≡ true → (x ≡ y) ⊎ (contains x ys ≡ true)
contains-cons x y ys h = elim (Bool-cases (x == y)) [
  | inl e ↦ inl ((==_iff x y).0 e)
  | inr e ↦ inr (rw e at h)
]

abbrev pub AreDistinct : List ℕ → Type 0
AreDistinct [] = Unit
AreDistinct (x ∷ xs) = (contains x xs ≡ false) × AreDistinct xs

pub remove-AreDistinct : (x : ℕ) (ys : List ℕ) → AreDistinct ys → AreDistinct (remove x ys)
remove-AreDistinct x [] d = tt
remove-AreDistinct x (y ∷ ys) (new, d) = elim (Bool-cases (x == y)) [
  | inl e ↦ rw e (remove-AreDistinct x ys d)
  | inr e ↦ rw e (ground (arith, contains-remove_back y x ys), remove-AreDistinct x ys d)
]

-- What differs from an element of the rest of a set is kept in it.
pub All-contains-remove :
    (x : ℕ) (xs ys : List ℕ)
    → contains x xs ≡ false
    → All (λ y. contains y ys ≡ true) xs
    → All (λ y. contains y (remove x ys) ≡ true) xs
All-contains-remove x [] ys new h = tt
All-contains-remove x (y ∷ xs) ys new (m, h) =
    (ground (arith, contains-remove_other y x ys), All-contains-remove x xs ys (ground arith) h)

pub All-contains :
    (xs ys : List ℕ)
    → All (λ y. contains y ys ≡ true) xs
    → (z : ℕ) → All (λ y. contains y (z ∷ ys) ≡ true) xs
All-contains [] ys h z = tt
All-contains (x ∷ xs) ys (m, h) z = (ground arith, All-contains xs ys h z)

pub All-contains_self : (xs : List ℕ) → All (λ y. contains y xs ≡ true) xs
All-contains_self [] = tt
All-contains_self (x ∷ xs) = (ground arith, All-contains xs xs (All-contains_self xs) x)

-- Taking one number out of a set makes it shorter by one at most.
pub length-remove_back :
    (x : ℕ) (ys : List ℕ) → AreDistinct ys → length ys ≤ length (remove x ys) + 1
length-remove_back x [] d = omega arith
length-remove_back x (y ∷ ys) (new, d) = elim (Bool-cases (x == y)) [
  | inl e ↦
      let same : x ≡ y = (==_iff x y).0 e in
      let kept : remove x ys ≡ ys = remove-absent x ys (rw same new) in rw (e, kept) (omega arith)
  | inr e ↦ rw e (omega (arith, length-remove_back x ys d))
]
  where
    remove-absent : (z : ℕ) (zs : List ℕ) → contains z zs ≡ false → remove z zs ≡ zs
    remove-absent z [] h = refl
    remove-absent z (w ∷ zs) h = ground (arith, remove-absent z zs)

remove-All :
    (P : ℕ → Type 0) (x : ℕ) (ys : List ℕ)
    → All P ys
    → All (λ y. P y × ((x == y) ≡ false)) (remove x ys)
remove-All P x [] h = tt
remove-All P x (y ∷ ys) (p, h) = elim (Bool-cases (x == y)) [
  | inl e ↦ rw e (remove-All P x ys h)
  | inr e ↦ rw e ((p, e), remove-All P x ys h)
]

-- A set of numbers below a bound has no more elements than the bound says.
pub length-bounded :
    (low n : ℕ) (ys : List ℕ)
    → AreDistinct ys
    → All (λ y. (low ≤ y) × (y < low + n)) ys
    → length ys ≤ n
length-bounded low zero [] d h = omega arith
length-bounded low zero (y ∷ ys) d ((a, b), h) = absurd (omega arith)
length-bounded low (suc n) ys d h =
    let left = length-bounded low n (remove (low + n) ys) (remove-AreDistinct (low + n) ys d) (
      All-map (λ y p. (p.0.0, ground (arith, p))) (remove (low + n) ys)
        (remove-All (λ y. (low ≤ y) × (y < low + suc n)) (low + n) ys h)) in
    omega (arith, left, length-remove_back (low + n) ys d)

contains-append :
    (x y : ℕ) (ys : List ℕ)
    → contains x ys ≡ false
    → (x == y) ≡ false
    → contains x (ys ++ (y ∷ [])) ≡ false
contains-append x y [] h e = rw e refl
contains-append x y (z ∷ ys) h e = ground (arith, contains-append x y ys)

pub append-AreDistinct :
    (x : ℕ) (ys : List ℕ) → contains x ys ≡ false → AreDistinct ys → AreDistinct (ys ++ (x ∷ []))
append-AreDistinct x [] h d = (refl, tt)
append-AreDistinct x (y ∷ ys) h (new, d) =
    (contains-append y x ys new (ground arith), append-AreDistinct x ys (ground arith) d)
