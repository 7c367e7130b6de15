-- ===== src/Serial/Node/Endless.antt =====
-- Messages on which `decodeMyInfo`, `decodePosition` and `decodeDeviceMetrics` never end: they hand
-- length-delimited fields to `skipField`, which adds a negative length and moves back.
use diginode_cc.Prelude.{
  ℕ, zero, suc, ◌+◌, ◌^◌, ◌<◌, ◌≡◌, ◌∙◌, true, List, [], ◌++◌, length, length-append, drop,
  drop-append, arith,
}
use diginode_cc.Serial.Varint.{IsU64, u64_mod, encode_varint, decode_varint}
use diginode_cc.Serial.Varint.RoundTrip.{decode_varint-encode_varint, encode_varint_shape}
use diginode_cc.Serial.Encode.{encode_tag}
use diginode_cc.Serial.Field.{skipped_field}
use diginode_cc.Serial.Field.Chunks.{encode_tag_pos}
use diginode_cc.Serial.Node.{
  MyNodeInfo, PositionData, DeviceMetrics, my_info_body, position_body, metrics_body,
}
use diginode_cc.Serial.Wire.{
  Flow, go, running, is_before, read_tag, skip_field, skip_or_break, fields_loop,
}
use diginode_cc.Serial.Wire.Chunks.{Fits, IsTag, read_tag-encode_tag}
use diginode_cc.Serial.Wire.Readers.{skip_field_lem, skip_or_break_lem}

-- A round that comes back to where it was is repeated forever.
fields_loop-running {ℓ} :
    {S : Type ℓ} (body : List ℕ → ℕ → S → Flow (S × ℕ)) (rounds : ℕ) (bytes : List ℕ) (s : S)
    → 0 < length bytes
    → body bytes 0 s ≡ go (s, 0)
    → fields_loop body rounds bytes 0 s ≡ running
unfolding fields_loop
fields_loop-running body zero bytes s h e =
    let before : is_before 0 bytes ≡ true = ground arith in rw before
fields_loop-running body (suc rounds) bytes s h e =
    let before : is_before 0 bytes ≡ true = ground arith in
    rw (before, e, fields_loop) (fields_loop-running body rounds bytes s h e)

-- A length that takes the position back to the start of its tag.
abbrev pub IsBackward : ℕ → ℕ → Type 0
IsBackward field v =
    (field < 2 ^ 61)
    × IsU64 v
    × (v + length (encode_tag field 2) + length (encode_varint v) ≡ u64_mod)

module _ (field v : ℕ) (rest : List ℕ) (back : IsBackward field v)
    (fits : Fits (encode_tag field 2 ++ (encode_varint v ++ rest))) where
  abbrev pub backward : List ℕ
  backward = encode_tag field 2 ++ (encode_varint v ++ rest)

  skip_or_break-back : skip_or_break backward (length (encode_tag field 2)) 2 ≡ go 0
  skip_or_break-back =
      let t = encode_tag field 2 in
      let bytes = t ++ (encode_varint v ++ rest) in
      let found : decode_varint (drop (length t) bytes) ≡ (v, length (encode_varint v)) =
        rw (drop-append t (encode_varint v ++ rest)) (decode_varint-encode_varint v rest back.1) in
      let start : skip_field bytes (length t) 2 ≡ 0 =
        rw (skip_field_lem bytes fits (length t) 2, found)
          (ground (arith, encode_varint_shape v back.1)) in
      rw (skip_or_break_lem bytes fits (length t) 2, start)

  pub endless {ℓ} :
      {S : Type ℓ} (body : List ℕ → ℕ → S → Flow (S × ℕ)) (rounds : ℕ) (s : S)
      → ((bytes : List ℕ) (pos pos' : ℕ) (s : S)
          → read_tag bytes pos ≡ go (field, 2, pos')
          → body bytes pos s ≡ skipped_field bytes 2 pos' s)
      → fields_loop body rounds backward 0 s ≡ running
  unfolding skipped_field
  endless body rounds s dispatches =
      let t = encode_tag field 2 in
      let tag : IsTag field 2 = (back.0, omega arith) in
      let some_byte : 0 < length backward =
        omega (arith, length-append t (encode_varint v ++ rest), encode_tag_pos field 2 tag) in
      fields_loop-running body rounds backward s some_byte (
        dispatches backward 0 (length t) s
          (read_tag-encode_tag [] field 2 (encode_varint v ++ rest) tag fits)
        ∙ rw skip_or_break-back)

  -- `decodeMyInfo`, `decodePosition` and `decodeDeviceMetrics` are still running after any number
  -- of rounds on a message of fewer than 2 ^ 62 bytes that begins with a length-delimited field, of
  -- any number below 2 ^ 61, whose length, as an `int`, is minus the number of bytes that its tag
  -- and its length take.
  pub decoders_endless :
      (rounds : ℕ) (i : MyNodeInfo) (p : PositionData) (m : DeviceMetrics)
      → let bytes = encode_tag field 2 ++ (encode_varint v ++ rest) in
        (fields_loop my_info_body rounds bytes 0 i ≡ running)
        × (fields_loop position_body rounds bytes 0 p ≡ running)
        × (fields_loop metrics_body rounds bytes 0 m ≡ running)
  unfolding my_info_body position_body metrics_body
  decoders_endless rounds i p m = (
    endless my_info_body rounds i (λ bytes pos pos' s e. rw e),
    endless position_body rounds p (λ bytes pos pos' s e. rw e),
    endless metrics_body rounds m (λ bytes pos pos' s e. rw e),
  )
