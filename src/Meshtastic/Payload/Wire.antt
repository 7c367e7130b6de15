-- ===== src/Meshtastic/Payload/Wire.antt =====
-- The copies of `decodeVarint` and `skipField` at the end of internal/meshtastic/dispatcher.go.
use diginode_cc.Prelude.{
  ℕ, ◌+◌, ◌*◌, ◌%◌, ◌^◌, ◌-◌, ◌≡◌, refl, bit_and, bit_or, List, [], ◌∷◌, leb, ◌==◌, if◌then◌else◌,
  drop,
}
use diginode_cc.Serial.Varint as Serial
use diginode_cc.Serial.Wire as SerialWire

-- `decodeVarint` from index `i` on.
decode_varint_loop : List ℕ → ℕ → ℕ → ℕ → ℕ × ℕ
decode_varint_loop [] i val shift = (0, 0)
decode_varint_loop (b ∷ bs) i val shift =
    let val' = bit_or val (bit_and b 0x7F * 2 ^ shift % 2 ^ 64) in
    let more = decode_varint_loop bs (i + 1) val' (shift + 7) in
    if leb 10 i then (0, 0) else if bit_and b 0x80 == 0 then (val', i + 1) else more

decode_varint : List ℕ → ℕ × ℕ
unfolding decode_varint_loop
decode_varint bytes = decode_varint_loop bytes 0 0 0

-- The case of a varint, at the bytes that are left; -1 is `2 ^ 64 - 1`.
skip_varint : List ℕ → ℕ → ℕ
skip_varint [] pos = 2 ^ 64 - 1
skip_varint (b ∷ bs) pos =
    let more = skip_varint bs (pos + 1) in if bit_and b 0x80 == 0 then pos + 1 else more

skip_field : List ℕ → ℕ → ℕ → ℕ
unfolding skip_varint decode_varint
skip_field bytes pos wire_type =
    let (length, n) = decode_varint (drop pos bytes) in
    if wire_type == 0
    then skip_varint (drop pos bytes) pos
    else if wire_type == 1
    then (pos + 8) % 2 ^ 64
    else if wire_type == 2
    then if n == 0 then 2 ^ 64 - 1 else ((pos + n) % 2 ^ 64 + length) % 2 ^ 64
    else if wire_type == 5
    then (pos + 4) % 2 ^ 64
    else 2 ^ 64 - 1

decode_varint_loop-eq :
    (bs : List ℕ) (i val shift : ℕ)
    → decode_varint_loop bs i val shift ≡ Serial.decode_varint_loop bs i val shift
unfolding decode_varint_loop Serial.decode_varint_loop Serial.add_group
decode_varint_loop-eq [] i val shift = refl
decode_varint_loop-eq (b ∷ bs) i val shift =
    rw
      (decode_varint_loop-eq bs (i + 1) (bit_or val (bit_and b 0x7F * 2 ^ shift % 2 ^ 64))
        (shift + 7))
      refl

-- Both copies of `decodeVarint` give the same for all bytes.
decode_varint-eq-serial : (bs : List ℕ) → decode_varint bs ≡ Serial.decode_varint bs
unfolding decode_varint Serial.decode_varint
decode_varint-eq-serial bs = decode_varint_loop-eq bs 0 0 0

skip_varint-eq : (bs : List ℕ) (pos : ℕ) → skip_varint bs pos ≡ SerialWire.skip_varint bs pos
unfolding skip_varint SerialWire.skip_varint
skip_varint-eq [] pos = refl
skip_varint-eq (b ∷ bs) pos = rw (skip_varint-eq bs (pos + 1)) refl

-- Both copies of `skipField` give the same at all positions and for all wire types.
skip_field-eq-serial :
    (bs : List ℕ) (pos wire_type : ℕ)
    → skip_field bs pos wire_type ≡ SerialWire.skip_field bs pos wire_type
unfolding skip_field SerialWire.skip_field
skip_field-eq-serial bs pos wire_type =
    rw (decode_varint-eq-serial (drop pos bs), skip_varint-eq (drop pos bs) pos) refl
