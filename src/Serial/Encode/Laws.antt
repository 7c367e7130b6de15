-- ===== src/Serial/Encode/Laws.antt =====
-- The fields that internal/serial/encode.go writes: their equations, their lengths, and that each
-- is a chunk of a message.
use diginode_cc.Prelude.{
  ℕ, ◌+◌, ◌*◌, ◌≤◌, ◌<◌, ◌^◌, ◌≡◌, ◌≢◌, refl, All, IsByte, List, ◌++◌, length, length-append, arith,
}
use diginode_cc.Serial.Varint.{IsU64, IsU32, encode_varint, encode_fixed32}
use diginode_cc.Serial.Varint.RoundTrip.{
  encode_varint_shape, length-encode_fixed32, decode_fixed32-IsU32,
}
use diginode_cc.Serial.Encode.{
  encode_tag, encode_varint_field, encode_length_delimited, encode_fixed32_field,
  build_data_message, build_mesh_packet, random_packet_id,
}
use diginode_cc.Serial.Field.{varint_field, fixed32_field}
use diginode_cc.Serial.Field.Chunks.{
  Dispatches, Handles, tagged_chunk, tagged_pos, varint_field-Handles, fixed32_field-Handles,
}
use diginode_cc.Serial.Wire.{Flow}
use diginode_cc.Serial.Wire.Chunks.{IsTag, Chunks, chunk, tag_value}

pub encode_varint_field_lem :
    (field v : ℕ) → encode_varint_field field v ≡ encode_tag field 0 ++ encode_varint v
unfolding encode_varint_field
encode_varint_field_lem field v = refl

pub encode_length_delimited_lem :
    (field : ℕ) (sub : List ℕ)
    → encode_length_delimited field sub ≡ encode_tag field 2 ++ (encode_varint (length sub) ++ sub)
unfolding encode_length_delimited
encode_length_delimited_lem field sub = refl

pub encode_fixed32_field_lem :
    (field v : ℕ) → encode_fixed32_field field v ≡ encode_tag field 5 ++ encode_fixed32 v
unfolding encode_fixed32_field
encode_fixed32_field_lem field v = refl

pub build_data_message_lem :
    (port : ℕ) (payload : List ℕ)
    → build_data_message port payload
      ≡ encode_varint_field 1 port ++ encode_length_delimited 2 payload
unfolding build_data_message
build_data_message_lem port payload = refl

pub build_mesh_packet_lem :
    (b : List ℕ) (to : ℕ) (message : List ℕ)
    → build_mesh_packet b to message
      ≡ encode_fixed32_field 2 to
        ++ (encode_varint_field 3 0
            ++ (encode_length_delimited 4 message
                ++ (encode_fixed32_field 6 (random_packet_id b)
                    ++ (encode_varint_field 10 3 ++ encode_varint_field 11 1))))
unfolding build_mesh_packet
build_mesh_packet_lem b to message = refl

-- The id is never 0, which the firmware would not transmit.
pub random_packet_id-ne-zero : (b : List ℕ) → random_packet_id b ≢ 0
unfolding random_packet_id
random_packet_id-ne-zero b = ground arith

pub random_packet_id-IsU32 : (b : List ℕ) → All IsByte b → IsU32 (random_packet_id b)
unfolding random_packet_id
random_packet_id-IsU32 b h = ground (arith, decode_fixed32-IsU32 b h)

pub length-encode_tag : (field wire : ℕ) → IsTag field wire → length (encode_tag field wire) ≤ 10
unfolding encode_tag
length-encode_tag field wire (hf, hw) =
    rw (tag_value field wire (hf, hw)) (encode_varint_shape (field * 8 + wire) (omega arith)).2

pub length-encode_varint_field :
    (field v : ℕ) → field < 2 ^ 61 → IsU64 v → length (encode_varint_field field v) ≤ 20
length-encode_varint_field field v hf hv = rw (encode_varint_field_lem field v) (
    omega (
      arith,
      length-append (encode_tag field 0) (encode_varint v),
      length-encode_tag field 0 (hf, omega arith),
      encode_varint_shape v hv,
    ))

pub length-encode_length_delimited :
    (field : ℕ) (sub : List ℕ)
    → field < 2 ^ 61
    → IsU64 (length sub)
    → length (encode_length_delimited field sub) ≤ 20 + length sub
length-encode_length_delimited field sub hf hs = rw (encode_length_delimited_lem field sub) (
    omega (
      arith,
      length-append (encode_tag field 2) (encode_varint (length sub) ++ sub),
      length-append (encode_varint (length sub)) sub,
      length-encode_tag field 2 (hf, omega arith),
      encode_varint_shape (length sub) hs,
    ))

pub length-encode_fixed32_field :
    (field v : ℕ) → field < 2 ^ 61 → length (encode_fixed32_field field v) ≤ 14
length-encode_fixed32_field field v hf = rw (encode_fixed32_field_lem field v) (
    omega (
      arith,
      length-append (encode_tag field 5) (encode_fixed32 v),
      length-encode_tag field 5 (hf, omega arith),
      length-encode_fixed32 v,
    ))

-- A field in front of chunks, one rule for each kind of field.
module _ {ℓ} {S : Type ℓ} (body : List ℕ → ℕ → S → Flow (S × ℕ)) where
  pub varint_chunk :
      (set : ℕ → ℕ → S → S) (field v : ℕ) {s t : S} {xs : List ℕ}
      → field < 2 ^ 61
      → IsU64 v
      → Dispatches body field 0 (varint_field set)
      → Chunks body (set field v s) xs t
      → Chunks body s (encode_varint_field field v ++ xs) t
  varint_chunk set field v {s} hf hv d rest =
      let tag : IsTag field 0 = (hf, omega arith) in
      rw (encode_varint_field_lem field v) (
        chunk (encode_tag field 0 ++ encode_varint v) (tagged_pos field 0 (encode_varint v) tag)
          (tagged_chunk body (varint_field set) field 0 (encode_varint v) s (set field v s) tag d
            (varint_field-Handles set field v s hv))
          rest)

  pub fixed32_chunk :
      (set : ℕ → ℕ → S → S) (field v : ℕ) {s t : S} {xs : List ℕ}
      → field < 2 ^ 61
      → IsU32 v
      → Dispatches body field 5 (fixed32_field set)
      → Chunks body (set field v s) xs t
      → Chunks body s (encode_fixed32_field field v ++ xs) t
  fixed32_chunk set field v {s} hf hv d rest =
      let tag : IsTag field 5 = (hf, omega arith) in
      rw (encode_fixed32_field_lem field v) (
        chunk (encode_tag field 5 ++ encode_fixed32 v) (tagged_pos field 5 (encode_fixed32 v) tag)
          (tagged_chunk body (fixed32_field set) field 5 (encode_fixed32 v) s (set field v s) tag d
            (fixed32_field-Handles set field v s hv))
          rest)

  -- A length-delimited field, by what its handler does with the bytes.
  pub delimited_chunk :
      (handle : List ℕ → ℕ → ℕ → S → Flow (S × ℕ)) (field : ℕ) (sub : List ℕ) {s s' t : S}
      {xs : List ℕ}
      → field < 2 ^ 61
      → Dispatches body field 2 handle
      → Handles handle field (encode_varint (length sub) ++ sub) s s'
      → Chunks body s' xs t
      → Chunks body s (encode_length_delimited field sub ++ xs) t
  delimited_chunk handle field sub {s} {s'} hf d h rest =
      let tag : IsTag field 2 = (hf, omega arith) in
      let y = encode_varint (length sub) ++ sub in
      rw (encode_length_delimited_lem field sub) (
        chunk (encode_tag field 2 ++ y) (tagged_pos field 2 y tag)
          (tagged_chunk body handle field 2 y s s' tag d h) rest)
