-- ===== src/Prelude/Bits.antt =====
-- `|`, `&` and `^` of words as arithmetic: disjoint fields, low masks, and facts on one byte.
use Prim.Native.Nat.{min, max, digits, bit_and-bitwise, bit_or-bitwise}
use native.Mathlib.Nat.{pow-suc}
use diginode_cc.Prelude.{
  ℕ, zero, suc, ◌+◌, ◌*◌, ◌/◌, ◌%◌, ◌^◌, ◌≤◌, ◌<◌, bit_and, bit_or, ◌≡◌, refl, ap, Bool, true, ◌&&◌,
  ◌==◌, ==_iff, arith,
}

-- The fuel of `digits` does not matter once it covers the first number.
module _ (z : ℕ → ℕ) (f : ℕ → ℕ → ℕ) where
  digits_fuel : (a n m b : ℕ) → a ≤ n → a ≤ m → digits z f n a b ≡ digits z f m a b
  digits_fuel a zero zero b p q = refl
  digits_fuel zero zero (suc m) b p q = refl
  digits_fuel (suc a) zero (suc m) b p q = absurd (omega arith)
  digits_fuel zero (suc n) zero b p q = refl
  digits_fuel (suc a) (suc n) zero b p q = absurd (omega arith)
  digits_fuel zero (suc n) (suc m) b p q = refl
  digits_fuel (suc a) (suc n) (suc m) b p q =
      ap (λ (d : ℕ). d * 2 + f (suc a % 2) (b % 2))
        (digits_fuel (suc a / 2) n m (b / 2) (omega arith) (omega arith))

zero-bit_or : (b : ℕ) → bit_or 0 b ≡ b
zero-bit_or b = bit_or-bitwise 0 b

zero-bit_and : (b : ℕ) → bit_and 0 b ≡ 0
zero-bit_and b = bit_and-bitwise 0 b

-- A word is made of the halves of its arguments and of their lowest digits.
pub bit_or-halves : (w v : ℕ) → max (w % 2) (v % 2) + 2 * bit_or (w / 2) (v / 2) ≡ bit_or w v
bit_or-halves zero v = omega (arith, zero-bit_or (v / 2), zero-bit_or v)
bit_or-halves (suc w) v =
    let half =
      digits_fuel (λ y. y) max (suc w / 2) w (suc w / 2) (v / 2) (omega arith) (omega arith) in
    omega (arith, half, bit_or-bitwise (suc w / 2) (v / 2), bit_or-bitwise (suc w) v)

pub bit_and-halves : (w v : ℕ) → min (w % 2) (v % 2) + 2 * bit_and (w / 2) (v / 2) ≡ bit_and w v
bit_and-halves zero v = omega (arith, zero-bit_and (v / 2), zero-bit_and v)
bit_and-halves (suc w) v =
    let half =
      digits_fuel (λ y. 0) min (suc w / 2) w (suc w / 2) (v / 2) (omega arith) (omega arith) in
    omega (arith, half, bit_and-bitwise (suc w / 2) (v / 2), bit_and-bitwise (suc w) v)

bit_or-zero_below : (n a : ℕ) → a ≤ n → bit_or a 0 ≡ a
bit_or-zero_below n zero h = refl
bit_or-zero_below zero (suc a) h = absurd (omega arith)
bit_or-zero_below (suc n) (suc a) h =
    omega (arith, bit_or-halves (suc a) 0, bit_or-zero_below n (suc a / 2) (omega arith))

bit_and-zero_below : (n a : ℕ) → a ≤ n → bit_and a 0 ≡ 0
bit_and-zero_below n zero h = refl
bit_and-zero_below zero (suc a) h = absurd (omega arith)
bit_and-zero_below (suc n) (suc a) h =
    omega (arith, bit_and-halves (suc a) 0, bit_and-zero_below n (suc a / 2) (omega arith))

shift_suc : (q k : ℕ) → q * 2 ^ suc k ≡ 2 * (q * 2 ^ k)
shift_suc q k = omega (arith, ap (λ (t : ℕ). q * t) (pow-suc 2 k))

-- `r | q << k` where `r` fits `k` bits.
pub bit_or-low_high : (k r q : ℕ) → r < 2 ^ k → bit_or r (q * 2 ^ k) ≡ r + q * 2 ^ k
bit_or-low_high zero r q h = ground (arith, zero-bit_or (q * 2 ^ 0))
bit_or-low_high (suc k) r q h = ground (
  arith,
  bit_or-halves r (q * 2 ^ suc k),
  shift_suc q k,
  pow-suc 2 k,
  bit_or-low_high k (r / 2) q (omega arith),
)

-- `q << k | r` where `r` fits `k` bits.
pub bit_or-high_low : (k q r : ℕ) → r < 2 ^ k → bit_or (q * 2 ^ k) r ≡ q * 2 ^ k + r
bit_or-high_low zero q r h = ground (arith, bit_or-zero_below q q)
bit_or-high_low (suc k) q r h = ground (
  arith,
  bit_or-halves (q * 2 ^ suc k) r,
  shift_suc q k,
  pow-suc 2 k,
  bit_or-high_low k q (r / 2) (omega arith),
)

-- `a & 7`, the wire type of a tag.
pub bit_and_seven : (tag : ℕ) → bit_and tag 7 ≡ tag % 8
bit_and_seven tag =
    let rest = bit_and-zero_below (tag / 2 / 2 / 2) (tag / 2 / 2 / 2) (omega arith) in
    omega (
      arith,
      rest,
      bit_and-halves (tag / 2 / 2) 1,
      bit_and-halves (tag / 2) 3,
      bit_and-halves tag 7,
    )

-- A test of every number below a bound.
module _ (test : ℕ → Bool) where
  passes_below : ℕ → Bool
  passes_below zero = true
  passes_below (suc n) = passes_below n && test n

  passes_below_sound : (i n : ℕ) → passes_below n ≡ true → i < n → test i ≡ true
  unfolding passes_below
  passes_below_sound i zero pass below = absurd (omega arith)
  passes_below_sound i (suc n) pass below = ground (arith, passes_below_sound i n)

module _ (f g : ℕ → ℕ) where
  agree_below : (n : ℕ) → passes_below (λ x. f x == g x) n ≡ true → (x : ℕ) → x < n → f x ≡ g x
  agree_below n t x h = (==_iff _ _).0 (passes_below_sound _ x n t h)

pub byte_low : (b : ℕ) → b < 256 → bit_and b 0x7F ≡ b % 128
unfolding passes_below
byte_low = agree_below _ _ 256 refl

pub byte_top : (b : ℕ) → b < 256 → bit_and b 0x80 ≡ b / 128 * 128
unfolding passes_below
byte_top = agree_below _ _ 256 refl

pub byte_set_top : (b : ℕ) → b < 256 → bit_or b 0x80 ≡ b % 128 + 128
unfolding passes_below
byte_set_top = agree_below _ _ 256 refl
