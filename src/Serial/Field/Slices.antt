-- ===== src/Serial/Field/Slices.antt =====
-- A slice of bytes with small lengths has small lengths: what can be read in it can be read in the
-- whole.
use native.Mathlib.Decide.{ℕ_discrete}
use native.Mathlib.Nat.{add_assoc}
use diginode_cc.Prelude.{
  ℕ, zero, suc, ◌+◌, ◌≡◌, ◌⊎◌, inl, inr, refl, ap, ◌∙◌, sym, List, [], ◌∷◌, ◌++◌, take,
  take-append-drop, drop, length-take, length-drop, arith,
}
use diginode_cc.Serial.Varint.{decode_varint, decode_varint_loop, add_group}
use diginode_cc.Serial.Varint.Bounds.{decode_varint-append}
use diginode_cc.Serial.Field.Total.{SmallLengths}
use diginode_cc.Serial.Wire.Chunks.{Fits}

module _ {ℓ} {A : Type ℓ} where
  drop-nil : (n : ℕ) → drop {A = A} n [] ≡ []
  drop-nil zero = refl
  drop-nil (suc n) = refl

  drop-drop : (m n : ℕ) (xs : List A) → drop n (drop m xs) ≡ drop (m + n) xs
  drop-drop zero n xs = let e : n ≡ 0 + n = omega arith in ap (λ (k : ℕ). drop k xs) e
  drop-drop (suc m) n [] = drop-nil n ∙ sym (drop-nil (suc m + n))
  drop-drop (suc m) n (x ∷ xs) =
      let e : suc (m + n) ≡ suc m + n = omega arith in
      drop-drop m n xs ∙ ap (λ (k : ℕ). drop k (x ∷ xs)) e

  -- What is left of a slice is the front of what is left of the whole, or nothing.
  drop-take :
      (n k : ℕ) (xs : List A)
      → (drop n xs ≡ drop n (take k xs) ++ drop k xs) ⊎ (drop n (take k xs) ≡ [])
  drop-take zero k xs = inl (sym (take-append-drop k xs))
  drop-take (suc n) zero xs = inr refl
  drop-take (suc n) (suc k) [] = inr refl
  drop-take (suc n) (suc k) (x ∷ xs) = drop-take n k xs

decode_varint-nil : decode_varint [] ≡ (0, 0)
unfolding decode_varint
decode_varint-nil = refl

decode_varint_loop-zero :
    (bs : List ℕ) (i val s : ℕ)
    → (decode_varint_loop bs i val s).1 ≡ 0
    → decode_varint_loop bs i val s ≡ (0, 0)
unfolding decode_varint_loop
decode_varint_loop-zero [] i val s h = refl
decode_varint_loop-zero (b ∷ bs) i val s h =
    ground (arith, decode_varint_loop-zero bs (i + 1) (add_group val b s) (s + 7))

decode_varint-zero : (bs : List ℕ) → (decode_varint bs).1 ≡ 0 → decode_varint bs ≡ (0, 0)
unfolding decode_varint
decode_varint-zero bs h = decode_varint_loop-zero bs 0 0 0 h

-- A varint in a slice is the varint at that place in the whole, or there is none.
decode_varint_slice :
    (start k pos : ℕ) (bytes : List ℕ)
    → (decode_varint (drop pos (take k (drop start bytes))) ≡ (0, 0))
      ⊎ (decode_varint (drop pos (take k (drop start bytes)))
          ≡ decode_varint (drop (start + pos) bytes))
decode_varint_slice start k pos bytes = elim (drop-take pos k (drop start bytes)) [
  | inr e ↦ inl (rw e decode_varint-nil)
  | inl e ↦
      let sub = drop pos (take k (drop start bytes)) in
      elim (ℕ_discrete (decode_varint sub).1 0) [
        | yes z ↦ inl (decode_varint-zero sub z)
        | no nz ↦ inr (
            sym (
              rw (← drop-drop start pos bytes, e)
                (decode_varint-append sub (drop k (drop start bytes)) nz)))
      ]
]

pub SmallLengths-slice :
    (start k : ℕ) (bytes : List ℕ) → SmallLengths bytes → SmallLengths (take k (drop start bytes))
SmallLengths-slice start k bytes small pos is_bytes = elim (decode_varint_slice start k pos bytes) [
  | inl e ↦ absurd (cc (rw e at is_bytes))
  | inr e ↦
      let n = (decode_varint (drop (start + pos) bytes)).1 in
      let behind = small (start + pos) (rw e at is_bytes) in
      rw e (elim (decode_varint_slice start k (pos + n) bytes) [
        | inl f ↦ rw f (omega arith)
        | inr f ↦ rw (f, ← add_assoc start pos n) behind
      ])
]

pub Fits-slice : (start k : ℕ) (bytes : List ℕ) → Fits bytes → Fits (take k (drop start bytes))
Fits-slice start k bytes h =
    omega (arith, length-take k (drop start bytes), length-drop start bytes)
