-- ===== src/Serial/FromRadio/Malformed.antt =====
-- Frames whose lengths do not fit an `int`: `int(length)` is negative, and the check against
-- `len(data)` lets it pass.
use diginode_cc.Prelude.{
  ℕ, zero, suc, ◌^◌, ◌≤◌, ◌<◌, ◌≡◌, refl, ◌∙◌, Option, some, List, [], ◌∷◌, ◌++◌, length,
  length-append, ◌||◌, true, false, ltb, arith,
}
use diginode_cc.Serial.Varint.{IsU64, encode_varint}
use diginode_cc.Serial.Encode.{encode_tag}
use diginode_cc.Serial.Wire.{
  Flow, go, panic, ◌>>=◌, panicked, DecodeError, truncated_length, truncated_payload, add_int,
  is_past, is_neg, read_tag, read_bytes, slice, fields_loop, is_before,
}
use diginode_cc.Serial.Wire.Chunks.{Fits, IsTag, read_tag-encode_tag, read_varint-encode_varint}
use diginode_cc.Serial.Field.Chunks.{encode_tag_pos}
use diginode_cc.Serial.Wire.Readers.{read_bytes_lem}
use diginode_cc.Serial.FromRadio.{
  FromRadioPacket, no_part, set_part, from_radio_body, with_packet, decode_from_radio,
}

slice-negative :
    (bytes : List ℕ) (start v : ℕ)
    → IsU64 v
    → 2 ^ 63 ≤ v
    → start ≤ length bytes
    → Fits bytes
    → slice bytes start (add_int start v) ≡ panic
unfolding slice
slice-negative bytes start v h big inside fits =
    let behind : is_neg (add_int start v) || ltb (add_int start v) start ≡ true = ground arith in
    rw behind

-- A negative end is not past the bytes, and a slice up to it panics; so does one that wraps to an
-- end in front of its start.
read_bytes-negative :
    (e e' : Option DecodeError) (front : List ℕ) (v : ℕ) (rest : List ℕ)
    → IsU64 v
    → 2 ^ 63 ≤ v
    → Fits (front ++ (encode_varint v ++ rest))
    → read_bytes e e' (front ++ (encode_varint v ++ rest)) (length front) ≡ panic
read_bytes-negative e e' front v rest h big fits =
    let bytes = front ++ (encode_varint v ++ rest) in
    let start = length (front ++ encode_varint v) in
    let inside : start ≤ length bytes = omega (
      arith,
      length-append front (encode_varint v),
      length-append front (encode_varint v ++ rest),
      length-append (encode_varint v) rest,
    ) in
    let passes : is_past (add_int start v) bytes ≡ false = ground arith in
    let panics : slice bytes start (add_int start v) ≡ panic =
      slice-negative bytes start v h big inside fits in
    rw
      (
        read_bytes_lem bytes fits e e' (length front),
        read_varint-encode_varint e front v rest h fits,
      )
      (rw (passes, panics))

-- A round that panics.
fields_loop-panic {ℓ} :
    {S : Type ℓ} (body : List ℕ → ℕ → S → Flow (S × ℕ)) (rounds : ℕ) (bytes : List ℕ) (s : S)
    → 0 < rounds
    → 0 < length bytes
    → body bytes 0 s ≡ panic
    → fields_loop body rounds bytes 0 s ≡ panicked
unfolding fields_loop
fields_loop-panic body zero bytes s hr h e = absurd (omega arith)
fields_loop-panic body (suc rounds) bytes s hr h e =
    let before : is_before 0 bytes ≡ true = ground arith in rw (before, e, fields_loop)

from_radio_body-bytes :
    (bytes : List ℕ) (pos field pos' : ℕ) (pkt : FromRadioPacket)
    → read_tag bytes pos ≡ go (field, 2, pos')
    → from_radio_body bytes pos pkt ≡ (
        read_bytes (some (truncated_length field)) (some (truncated_payload field)) bytes pos'
        >>= λ r. set_part field r.0 pkt >>= λ p. go (p, r.1))
unfolding from_radio_body
from_radio_body-bytes bytes pos field pos' pkt e = rw e

decode_from_radio-cons :
    (bytes : List ℕ)
    → 0 < length bytes
    → decode_from_radio bytes
      ≡ with_packet (fields_loop from_radio_body (length bytes) bytes 0 (no_part bytes))
unfolding decode_from_radio
decode_from_radio-cons [] h = elim h [ ]
decode_from_radio-cons (b ∷ bs) h = refl

-- `DecodeFromRadio` panics on every frame of fewer than 2 ^ 62 bytes that begins with a
-- length-delimited field, of any number below 2 ^ 61, whose length is a uint64 of 2 ^ 63 or more: `int(length)` is then negative, the test
-- `pos+int(length) > len(data)` fails, and the slice is out of range.
pub decode_from_radio-panicked :
    (field v : ℕ) (rest : List ℕ)
    → field < 2 ^ 61
    → IsU64 v
    → 2 ^ 63 ≤ v
    → Fits (encode_tag field 2 ++ (encode_varint v ++ rest))
    → decode_from_radio (encode_tag field 2 ++ (encode_varint v ++ rest)) ≡ panicked
decode_from_radio-panicked field v rest hf h big fits =
    let t = encode_tag field 2 in
    let bytes = t ++ (encode_varint v ++ rest) in
    let tag : IsTag field 2 = (hf, omega arith) in
    let some_byte : 0 < length bytes =
      omega (arith, length-append t (encode_varint v ++ rest), encode_tag_pos field 2 tag) in
    let body_panics : from_radio_body bytes 0 (no_part bytes) ≡ panic =
      from_radio_body-bytes bytes 0 field (length t) (no_part bytes)
        (read_tag-encode_tag [] field 2 (encode_varint v ++ rest) tag fits)
      ∙ rw (
          read_bytes-negative (some (truncated_length field)) (some (truncated_payload field)) t v
            rest h big fits) in
    decode_from_radio-cons bytes some_byte
    ∙ rw
        (fields_loop-panic from_radio_body (length bytes) bytes (no_part bytes) some_byte some_byte
          body_panics)
        (unfold with_packet in refl)
