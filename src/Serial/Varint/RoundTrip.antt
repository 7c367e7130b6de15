-- ===== src/Serial/Varint/RoundTrip.antt =====
-- `decodeVarint` reads back what `encodeVarint` writes, and fixed-width integers likewise.
use native.Mathlib.Decide.{dec_lt}
use diginode_cc.Prelude.{
  ℕ, zero, suc, ◌+◌, ◌*◌, ◌/◌, ◌%◌, ◌^◌, ◌≤◌, ◌<◌, ◌≡◌, refl, ap, ◌∙◌, List, [], ◌∷◌, ◌++◌, length,
  All, IsByte, arith, bit_or,
}
use diginode_cc.Prelude.Bits.{byte_top, byte_set_top}
use diginode_cc.Serial.Varint.{
  decode_varint_loop, decode_varint, encode_varint_loop, encode_varint, IsU64, IsU32,
  encode_fixed32, decode_fixed32,
}
use diginode_cc.Serial.Varint.Bounds.{add_group_fits, pow_seven}

-- One round of `decodeVarint` on the last byte, and on one with the top bit set.
last_byte :
    (w i val s : ℕ) (rest : List ℕ)
    → w < 128
    → i < 10
    → val < 2 ^ s
    → IsU64 (w * 2 ^ s)
    → decode_varint_loop (w ∷ rest) i val s ≡ (val + w * 2 ^ s, i + 1)
unfolding decode_varint_loop
last_byte w i val s rest hw hi h fits =
    let e : w % 128 ≡ w = omega arith in
    ground (arith, byte_top w, e, add_group_fits val w s (omega arith) h (rw e fits))

inner_byte :
    (g i val s : ℕ) (rest : List ℕ)
    → g < 128
    → i < 10
    → val < 2 ^ s
    → IsU64 (g * 2 ^ s)
    → decode_varint_loop ((g + 128) ∷ rest) i val s
      ≡ decode_varint_loop rest (i + 1) (val + g * 2 ^ s) (s + 7)
unfolding decode_varint_loop
inner_byte g i val s rest hg hi h fits =
    let e : (g + 128) % 128 ≡ g = omega arith in
    ground
      (arith, byte_top (g + 128), e, add_group_fits val (g + 128) s (omega arith) h (rw e fits))

-- The lowest group of `w`, and the groups above it.
split_group : (s w : ℕ) → w / 128 * 2 ^ (s + 7) + w % 128 * 2 ^ s ≡ w * 2 ^ s
split_group s w =
    let whole : (w / 128 * 128 + w % 128) * 2 ^ s ≡ w * 2 ^ s =
      ap (λ (t : ℕ). t * 2 ^ s) (omega arith) in
    omega (arith, whole, ap (λ (t : ℕ). w / 128 * t) (pow_seven s))

inner_group : (w : ℕ) → bit_or (w % 256) 0x80 ≡ w % 128 + 128
inner_group w = omega (arith, byte_set_top (w % 256) (omega arith))

-- One round of `encodeVarint`, by its test.
encode_varint_loop-last : (slots w : ℕ) → w < 128 → encode_varint_loop (suc slots) w ≡ w ∷ []
unfolding encode_varint_loop
encode_varint_loop-last slots w h = let e : w % 256 ≡ w = omega arith in ground (arith, e)

encode_varint_loop-more :
    (slots w : ℕ)
    → 128 ≤ w
    → encode_varint_loop (suc slots) w ≡ (w % 128 + 128) ∷ encode_varint_loop slots (w / 128)
unfolding encode_varint_loop
encode_varint_loop-more slots w h = ground (arith, inner_group w)

-- `slots` slots of the buffer are enough for a number below `128 ^ slots`.
decode-encode_loop :
    (slots w i val s : ℕ) (rest : List ℕ)
    → w < 128 ^ suc slots
    → i + suc slots ≤ 10
    → val < 2 ^ s
    → IsU64 (w * 2 ^ s)
    → decode_varint_loop (encode_varint_loop (suc slots) w ++ rest) i val s
      ≡ (val + w * 2 ^ s, i + length (encode_varint_loop (suc slots) w))
decode-encode_loop zero w i val s rest hw hi h fits =
    rw (encode_varint_loop-last 0 w hw, last_byte w i val s rest hw (omega arith) h fits)
decode-encode_loop (suc slots) w i val s rest hw hi h fits = elim (dec_lt w 128) [
  | yes small ↦ rw (
    encode_varint_loop-last (suc slots) w small,
    last_byte w i val s rest small (omega arith) h fits,
  )
  | no large ↦
      let low = w % 128 in
      let tail = encode_varint_loop (suc slots) (w / 128) ++ rest in
      let split = split_group s w in
      let ih =
        decode-encode_loop slots (w / 128) (i + 1) (val + low * 2 ^ s) (s + 7) rest (omega arith)
          (omega arith) (grind (arith, pow_seven s)) (omega arith) in
      rw (encode_varint_loop-more (suc slots) w (omega arith)) (
        inner_byte low i val s tail (omega arith) (omega arith) h (omega arith) ∙ ih ∙ ground arith)
]

-- `decodeVarint` reads back every uint64 that `encodeVarint` wrote, and reads just its bytes.
pub decode_varint-encode_varint :
    (v : ℕ) (rest : List ℕ)
    → IsU64 v
    → decode_varint (encode_varint v ++ rest) ≡ (v, length (encode_varint v))
unfolding decode_varint encode_varint
decode_varint-encode_varint v rest h =
    decode-encode_loop 9 v 0 0 0 rest (omega arith) (omega arith) (omega arith) (omega arith)
    ∙ ground arith

encode_varint_loop-shape :
    (slots v : ℕ)
    → v < 128 ^ suc slots
    → All IsByte (encode_varint_loop (suc slots) v)
      × (1 ≤ length (encode_varint_loop (suc slots) v))
      × (length (encode_varint_loop (suc slots) v) ≤ suc slots)
encode_varint_loop-shape zero v h = rw (encode_varint_loop-last 0 v h) (omega arith)
encode_varint_loop-shape (suc slots) v h = elim (dec_lt v 128) [
  | yes small ↦ rw (encode_varint_loop-last (suc slots) v small) (omega arith)
  | no large ↦
      let rest = encode_varint_loop-shape slots (v / 128) (omega arith) in
      rw (encode_varint_loop-more (suc slots) v (omega arith))
        ((omega arith, rest.0), omega arith, omega (arith, rest.2))
]

-- `encodeVarint` writes 1 to 10 bytes for every uint64: its buffer is never too small.
pub encode_varint_shape :
    (v : ℕ)
    → IsU64 v
    → All IsByte (encode_varint v)
      × (1 ≤ length (encode_varint v))
      × (length (encode_varint v) ≤ 10)
unfolding encode_varint
encode_varint_shape v h = encode_varint_loop-shape 9 v (omega arith)

-- A number below 128 takes one byte.
pub encode_varint-small : (v : ℕ) → v < 128 → encode_varint v ≡ v ∷ []
unfolding encode_varint
encode_varint-small v h = encode_varint_loop-last 9 v h

-- A uint32 in four little-endian bytes.
pub decode_fixed32-encode_fixed32 :
    (v : ℕ) (rest : List ℕ) → IsU32 v → decode_fixed32 (encode_fixed32 v ++ rest) ≡ v
unfolding decode_fixed32 encode_fixed32
decode_fixed32-encode_fixed32 v rest h = omega arith

pub length-encode_fixed32 : (v : ℕ) → length (encode_fixed32 v) ≡ 4
unfolding encode_fixed32
length-encode_fixed32 v = refl

pub decode_fixed32-IsU32 : (bs : List ℕ) → All IsByte bs → IsU32 (decode_fixed32 bs)
unfolding decode_fixed32
decode_fixed32-IsU32 [] h = omega arith
decode_fixed32-IsU32 (a ∷ []) h = omega arith
decode_fixed32-IsU32 (a ∷ b ∷ []) h = omega arith
decode_fixed32-IsU32 (a ∷ b ∷ c ∷ []) h = omega arith
decode_fixed32-IsU32 (a ∷ b ∷ c ∷ d ∷ rest) (ha, (hb, (hc, (hd, h)))) = omega arith
