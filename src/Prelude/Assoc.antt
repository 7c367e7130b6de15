-- ===== src/Prelude/Assoc.antt =====
-- Maps with numbers as keys: lists of entries, at most one for each key.
use Prim.Native.Nat.{ℕ, ◌+◌}
use mathlib.Core.Path.{◌≡◌, refl, sym, ap, ◌∙◌}
use mathlib.Core.Logic.{◌≢◌, inl, inr}
use mathlib.Core.Bool.{true, false}
use mathlib.Core.Option.{Option, none, some, some-injective}
use mathlib.Core.List.{List, [], ◌∷◌}
use native.Mathlib.Omega.{arith}
use diginode_cc.Prelude.Tests.{◌==◌, ==_iff, if◌then◌else◌, Bool-cases}

pub same_key : (k : ℕ) → (k == k) ≡ true
same_key k = ground arith

other_key : (k i : ℕ) → k ≢ i → (k == i) ≡ false
other_key k i h = ground arith

module _ {ℓ} {V : Type ℓ} where
  abbrev pub lookup : ℕ → List (ℕ × V) → Option V
  lookup k [] = none
  lookup k ((i, v) ∷ m) = let rest = lookup k m in if k == i then some v else rest

  -- `delete(m, k)`
  abbrev pub erase : ℕ → List (ℕ × V) → List (ℕ × V)
  erase k [] = []
  erase k ((i, v) ∷ m) = let rest = erase k m in if k == i then rest else (i, v) ∷ rest

  -- `m[k] = v`
  abbrev pub put : ℕ → V → List (ℕ × V) → List (ℕ × V)
  put k v m = (k, v) ∷ erase k m

  pub lookup-erase : (k : ℕ) (m : List (ℕ × V)) → lookup k (erase k m) ≡ none
  lookup-erase k [] = refl
  lookup-erase k ((i, v) ∷ m) = elim (Bool-cases (k == i)) [
    | inl e ↦ rw e (lookup-erase k m)
    | inr e ↦ rw (e, e) (lookup-erase k m)
  ]

  pub lookup-erase_other : (k i : ℕ) (m : List (ℕ × V)) → k ≢ i → lookup k (erase i m) ≡ lookup k m
  lookup-erase_other k i [] h = refl
  lookup-erase_other k i ((j, v) ∷ m) h = ground (arith, lookup-erase_other k i m h)

  pub lookup-put : (k : ℕ) (v : V) (m : List (ℕ × V)) → lookup k (put k v m) ≡ some v
  lookup-put k v m = rw (same_key k) refl

  pub lookup-put_other :
      (k i : ℕ) (v : V) (m : List (ℕ × V)) → k ≢ i → lookup k (put i v m) ≡ lookup k m
  lookup-put_other k i v m h = rw (other_key k i h) (lookup-erase_other k i m h)

  -- Each key stands once.
  abbrev pub IsMap : List (ℕ × V) → Type ℓ
  IsMap [] = Unit {ℓ}
  IsMap ((i, v) ∷ m) = (lookup i m ≡ none) × IsMap m

  pub erase-absent : (k : ℕ) (m : List (ℕ × V)) → lookup k m ≡ none → erase k m ≡ m
  erase-absent k [] h = refl
  erase-absent k ((i, v) ∷ m) h = elim (Bool-cases (k == i)) [
    | inl e ↦ cc
    | inr e ↦ rw e (ap (λ l. (i, v) ∷ l) (erase-absent k m (rw e at h)))
  ]

  pub erase-IsMap : (k : ℕ) (m : List (ℕ × V)) → IsMap m → IsMap (erase k m)
  erase-IsMap k [] d = tt
  erase-IsMap k ((i, v) ∷ m) (new, d) = elim (Bool-cases (k == i)) [
    | inl e ↦ rw e (erase-IsMap k m d)
    | inr e ↦ rw e (lookup-erase_other i k m (ground arith) ∙ new, erase-IsMap k m d)
  ]

  pub put-IsMap : (k : ℕ) (v : V) (m : List (ℕ × V)) → IsMap m → IsMap (put k v m)
  put-IsMap k v m d = (lookup-erase k m, erase-IsMap k m d)

  module _ (weight : V → ℕ) where
    abbrev pub total : List (ℕ × V) → ℕ
    total [] = 0
    total ((i, v) ∷ m) = weight v + total m

    pub total-erase :
        (k : ℕ) (v : V) (m : List (ℕ × V))
        → IsMap m
        → lookup k m ≡ some v
        → weight v + total (erase k m) ≡ total m
    total-erase k v [] d h = cc
    total-erase k v ((i, w) ∷ m) (new, d) h = elim (Bool-cases (k == i)) [
      | inl e ↦
          let same : k ≡ i = (==_iff k i).0 e in
          let old : w ≡ v = some-injective w v (rw e at h) in
          rw (e, erase-absent k m (rw same new)) (ap (λ x. weight x + total m) (sym old))
      | inr e ↦ rw e (omega (arith, total-erase k v m d (rw e at h)))
    ]
