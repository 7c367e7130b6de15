-- ===== src/Serial/Varint.antt =====
-- The varints and fixed-width integers of protobuf (internal/serial/framing.go and encode.go):
-- `decodeVarint`, `encodeVarint`, `decodeZigzag`, `encodeFixed32` and the little-endian read.
pub mod Bounds
pub mod RoundTrip
use diginode_cc.Prelude.{
  ℕ, zero, suc, ◌+◌, ◌*◌, ◌/◌, ◌%◌, ◌^◌, ◌-◌, ◌<◌, bit_and, bit_or, bit_xor, List, [], ◌∷◌, ltb,
  leb, ◌==◌, if◌then◌else◌,
}

abbrev pub u64_mod : ℕ
u64_mod = 2 ^ 64

abbrev pub u32_mod : ℕ
u32_mod = 2 ^ 32

abbrev pub IsU64 : ℕ → Type 0
IsU64 v = v < u64_mod

abbrev pub IsU32 : ℕ → Type 0
IsU32 v = v < u32_mod

-- `uint32(val)` and `int32(val)`: a signed word is its bit pattern, as an unsigned one.
abbrev pub u32 : ℕ → ℕ
u32 v = v % u32_mod

-- `val |= uint64(b&0x7F) << shift`
unfoldable pub add_group : ℕ → ℕ → ℕ → ℕ
add_group val b shift = bit_or val (bit_and b 0x7F * 2 ^ shift % u64_mod)

-- The loop of `decodeVarint` from index `i` on; `(0, 0)` says that there is no varint.
unfoldable pub decode_varint_loop : List ℕ → ℕ → ℕ → ℕ → ℕ × ℕ
unfolding add_group
decode_varint_loop [] i val shift = (0, 0)
decode_varint_loop (b ∷ bs) i val shift =
    let val' = add_group val b shift in
    let more = decode_varint_loop bs (i + 1) val' (shift + 7) in
    if leb 10 i then (0, 0) else if bit_and b 0x80 == 0 then (val', i + 1) else more

-- The value, and the number of bytes read.
unfoldable pub decode_varint : List ℕ → ℕ × ℕ
unfolding decode_varint_loop
decode_varint bs = decode_varint_loop bs 0 0 0

-- The loop of `encodeVarint`; the first argument counts the slots of `buf` that are left.
unfoldable pub encode_varint_loop : ℕ → ℕ → List ℕ
encode_varint_loop zero val = []
encode_varint_loop (suc slots) val =
    let more = encode_varint_loop slots (val / 2 ^ 7) in
    if leb 0x80 val then bit_or (val % 256) 0x80 ∷ more else val % 256 ∷ []

-- `var buf [10]byte` has room for every uint64.
unfoldable pub encode_varint : ℕ → List ℕ
unfolding encode_varint_loop
encode_varint val = encode_varint_loop 10 val

-- `int64(v>>1) ^ -int64(v&1)`, as a 64-bit pattern.
unfoldable pub decode_zigzag : ℕ → ℕ
decode_zigzag v = bit_xor (v / 2) ((u64_mod - bit_and v 1) % u64_mod)

unfoldable pub encode_fixed32 : ℕ → List ℕ
encode_fixed32 val = val % 256 ∷ val / 2 ^ 8 % 256 ∷ val / 2 ^ 16 % 256 ∷ val / 2 ^ 24 % 256 ∷ []

-- `binary.LittleEndian.Uint32` of the first four bytes; its callers check that there are four.
unfoldable pub decode_fixed32 : List ℕ → ℕ
decode_fixed32 (a ∷ b ∷ c ∷ d ∷ rest) = a + b * 2 ^ 8 + c * 2 ^ 16 + d * 2 ^ 24
decode_fixed32 rest = 0
