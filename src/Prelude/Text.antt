-- ===== src/Prelude/Text.antt =====
-- Texts as lists of bytes, and the decimal and hexadecimal forms that `fmt.Sprintf` writes.
use Prim.Native.Char.{code}
use Prim.Native.String.{String}
use diginode_cc.Prelude.{
  ℕ, zero, suc, ◌+◌, ◌-◌, ◌/◌, ◌%◌, ◌≡◌, refl, Bool, true, false, ◌&&◌, List, [], ◌∷◌, ltb, ◌==◌,
  if◌then◌else◌, arith,
}

-- The bytes of an ASCII literal.
abbrev pub codes : String → List ℕ
codes String.[] = []
codes (String.◌∷◌ c s) = code c ∷ codes s

-- `%d`: the digits in front of those written, at most `fuel` of them. A uint64 has 20 at most.
unfoldable pub digits_loop : ℕ → ℕ → List ℕ → List ℕ
digits_loop zero n out = out
digits_loop (suc fuel) n out =
    let more = digits_loop fuel (n / 10) ((b'0' + n % 10) ∷ out) in
    if ltb n 10 then (b'0' + n) ∷ out else more

unfoldable pub print_nat : ℕ → List ℕ
unfolding digits_loop
print_nat n = digits_loop 20 n []

hex_digit : ℕ → ℕ
hex_digit d = if ltb d 10 then b'0' + d else b'A' + (d - 10)

-- `%02X` of a byte.
unfoldable pub print_hex : ℕ → List ℕ
unfolding hex_digit
print_hex b = hex_digit (b / 16) ∷ hex_digit (b % 16) ∷ []

-- `==` on strings.
abbrev pub eq_text : List ℕ → List ℕ → Bool
eq_text [] [] = true
eq_text (c ∷ xs) (d ∷ ys) = let rest = eq_text xs ys in c == d && rest
eq_text _ _ = false

pub eq_text_self : (xs : List ℕ) → eq_text xs xs ≡ true
eq_text_self [] = refl
eq_text_self (c ∷ xs) = ground (arith, eq_text_self xs)

pub eq_text_sound : (xs ys : List ℕ) → eq_text xs ys ≡ true → xs ≡ ys
eq_text_sound [] [] h = refl
eq_text_sound [] (d ∷ ys) h = cc
eq_text_sound (c ∷ xs) [] h = cc
eq_text_sound (c ∷ xs) (d ∷ ys) h = grind (arith, eq_text_sound xs ys)
