-- ===== src/Serial/Varint/Bounds.antt =====
-- What `decodeVarint` returns on any bytes.
use native.Mathlib.Nat.{mod-eq_of_lt}
use native.Mathlib.Decide.{dec_lt}
use native.Mathlib.Numerals.{towards_suc}
use diginode_cc.Prelude.{
  ℕ, zero, suc, ◌+◌, ◌*◌, ◌%◌, ◌^◌, ◌≤◌, ◌<◌, ◌≡◌, ◌≢◌, ◌⊎◌, inl, inr, refl, ap, List, [], ◌∷◌,
  ◌++◌, length, All, IsByte, arith, bit_and, Bool-cases, ◌==◌,
}
use diginode_cc.Prelude.Bits.{bit_or-low_high, byte_low}
use diginode_cc.Serial.Varint.{add_group, decode_varint_loop, decode_varint, IsU64}

pub pow_seven : (s : ℕ) → 2 ^ (s + 7) ≡ 128 * 2 ^ s
pow_seven s = simp towards_suc (omega arith)

-- A group that fits the word is added, whatever the bits below its shift are.
pub add_group_fits :
    (val b s : ℕ)
    → IsByte b
    → val < 2 ^ s
    → IsU64 (b % 128 * 2 ^ s)
    → add_group val b s ≡ val + b % 128 * 2 ^ s
unfolding add_group
add_group_fits val b s hb h fits =
    ground (arith, byte_low b, bit_or-low_high s val (b % 128), mod-eq_of_lt fits)

-- The tenth group keeps its lowest bit only.
pub add_group_last : (val b : ℕ) → IsByte b → val < 2 ^ 63 → IsU64 (add_group val b 63)
unfolding add_group
add_group_last val b hb h = ground (arith, byte_low b, bit_or-low_high 63 val (b % 2))

pow_le : (i : ℕ) → i < 9 → 2 ^ (7 * i) ≤ 2 ^ 56
pow_le zero h = omega arith
pow_le (suc zero) h = omega arith
pow_le (suc (suc zero)) h = omega arith
pow_le (suc (suc (suc zero))) h = omega arith
pow_le (suc (suc (suc (suc zero)))) h = omega arith
pow_le (suc (suc (suc (suc (suc zero))))) h = omega arith
pow_le (suc (suc (suc (suc (suc (suc zero)))))) h = omega arith
pow_le (suc (suc (suc (suc (suc (suc (suc zero))))))) h = omega arith
pow_le (suc (suc (suc (suc (suc (suc (suc (suc zero)))))))) h = omega arith
pow_le (suc (suc (suc (suc (suc (suc (suc (suc (suc i))))))))) h = absurd (omega arith)

-- A group at a shift of at most 56 is not cut off.
add_group_below :
    (val b i : ℕ) → IsByte b → i < 9 → val < 2 ^ (7 * i) → add_group val b (7 * i) < 2 ^ (7 * i + 7)
add_group_below val b i hb hi h =
    let fits : IsU64 (b % 128 * 2 ^ (7 * i)) = grind (arith, pow_le i hi) in
    grind (arith, add_group_fits val b (7 * i) hb h fits, pow_seven (7 * i))

-- What a varint that was read looks like: a uint64, and 1 to 10 bytes of those that there are.
-- `n ≡ 0` says that there was none.
abbrev pub IsRead : ℕ → ℕ × ℕ → Type 0
IsRead len (v, n) = IsU64 v × (n ≤ len) × (n ≤ 10)

add_group-step :
    (val b i : ℕ)
    → IsByte b
    → i < 9
    → val < 2 ^ (7 * i)
    → add_group val b (7 * i) < 2 ^ (7 * (i + 1))
add_group-step val b i hb hi h =
    let e : 7 * (i + 1) ≡ 7 * i + 7 = omega arith in rw e (add_group_below val b i hb hi h)

add_group-IsU64 :
    (val b i : ℕ) → IsByte b → i ≤ 9 → val < 2 ^ (7 * i) → IsU64 (add_group val b (7 * i))
add_group-IsU64 val b i hb hi h = elim (dec_lt i 9) [
  | yes below ↦ omega (arith, add_group_below val b i hb below h, pow_seven (7 * i), pow_le i below)
  | no last ↦
      let e : 7 * i ≡ 63 = omega arith in
      rw e (add_group_last val b hb (omega (arith, ap (λ (k : ℕ). 2 ^ k) e)))
]

-- One round of the loop, by its two tests.
decode_varint_loop-stop :
    (b : ℕ) (bs : List ℕ) (i val s : ℕ)
    → ((decode_varint_loop (b ∷ bs) i val s ≡ (0, 0)) × (10 ≤ i))
      ⊎ (decode_varint_loop (b ∷ bs) i val s ≡ (add_group val b s, i + 1)) × (i < 10)
      ⊎ (decode_varint_loop (b ∷ bs) i val s
          ≡ decode_varint_loop bs (i + 1) (add_group val b s) (s + 7))
        × (i < 10)
unfolding decode_varint_loop
decode_varint_loop-stop b bs i val s = elim (dec_lt i 10) [
  | yes more ↦ elim (Bool-cases (bit_and b 0x80 == 0)) [
    | inl last ↦ inr (inl (ground arith, more))
    | inr inner ↦ inr (inr (ground arith, more))
  ]
  | no enough ↦ inl (ground arith, omega arith)
]

decode_varint_loop-bounds :
    (bs : List ℕ) (i val : ℕ)
    → All IsByte bs
    → (i < 10 → val < 2 ^ (7 * i))
    → IsRead (i + length bs) (decode_varint_loop bs i val (7 * i))
decode_varint_loop-bounds [] i val h fits = unfold decode_varint_loop in omega arith
decode_varint_loop-bounds (b ∷ bs) i val (hb, h) fits =
    elim (decode_varint_loop-stop b bs i val (7 * i)) [
      | inl (e, enough) ↦ rw e (omega arith)
      | inr (inl (e, more)) ↦
          rw e (add_group-IsU64 val b i hb (omega arith) (fits more), omega arith, omega arith)
      | inr (inr (e, more)) ↦
          let val' = add_group val b (7 * i) in
          let shifted : 7 * (i + 1) ≡ 7 * i + 7 = omega arith in
          let fits' : i + 1 < 10 → val' < 2 ^ (7 * (i + 1)) =
            λ hi. add_group-step val b i hb (omega arith) (fits more) in
          let rest = rw shifted at (decode_varint_loop-bounds bs (i + 1) val' h fits') in
          rw e (rest.0, omega (arith, rest.1), rest.2)
    ]

-- `decodeVarint` returns a uint64 and reads at most 10 bytes, and no more than there are.
pub decode_varint-IsRead : (bs : List ℕ) → All IsByte bs → IsRead (length bs) (decode_varint bs)
unfolding decode_varint
decode_varint-IsRead bs h = ground (arith, decode_varint_loop-bounds bs 0 0 h (λ _. omega arith))

decode_varint_loop-append :
    (bs rest : List ℕ) (i val s : ℕ)
    → (decode_varint_loop bs i val s).1 ≢ 0
    → decode_varint_loop (bs ++ rest) i val s ≡ decode_varint_loop bs i val s
unfolding decode_varint_loop
decode_varint_loop-append [] rest i val s h = absurd (h refl)
decode_varint_loop-append (b ∷ bs) rest i val s h =
    ground (arith, decode_varint_loop-append bs rest (i + 1) (add_group val b s) (s + 7))

-- A varint that was read is read the same way whatever stands behind the bytes.
pub decode_varint-append :
    (bs rest : List ℕ) → (decode_varint bs).1 ≢ 0 → decode_varint (bs ++ rest) ≡ decode_varint bs
unfolding decode_varint
decode_varint-append bs rest h = decode_varint_loop-append bs rest 0 0 0 h
