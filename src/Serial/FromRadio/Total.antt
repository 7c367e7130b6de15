-- ===== src/Serial/FromRadio/Total.antt =====
-- `DecodeFromRadio` returns on every frame with small lengths.
use diginode_cc.Prelude.{
  ℕ, ◌≤◌, ◌<◌, ◌^◌, ◌≡◌, refl, Option, none, some, Bool-cases, inl, inr, ◌==◌, ==_iff, List, [],
  ◌∷◌, take, drop, length, arith, if◌then◌else◌,
}
use diginode_cc.Serial.Field.{varint_field, bytes_field, skipped_field}
use diginode_cc.Serial.Field.Total.{
  SmallLengths, SmallBehind, SmallLengths-behind, tagged-IsSafe, varint_field-Holds,
  bytes_field-Holds, skipped_field-Holds,
}
use diginode_cc.Serial.Field.Slices.{SmallLengths-slice, Fits-slice}
use diginode_cc.Serial.Wire.{
  Flow, go, exit, ◌>>=◌, call, read_varint, read_bytes, skip_bytes, decode_fields, Outcome,
  returned, DecodeError,
}
use diginode_cc.Serial.Wire.Chunks.{Fits}
use diginode_cc.Serial.Wire.Total.{
  Holds, Holds-bind, Holds-call, Forward, Returns, IsSafe, decode_fields-Returns,
}
use diginode_cc.Serial.Wire.Readers.{
  IsVarintAt, IsSlice, SmallAt, read_varint-Holds, read_bytes-Holds, skip_bytes-Holds,
}
use diginode_cc.Serial.FromRadio.{
  DeviceMetadata, no_metadata, set_metadata_bytes, set_metadata, metadata_body, decode_metadata,
  FromRadioPacket, no_part, set_kind, set_part, from_radio_body, with_packet, decode_from_radio,
  config, channel, mesh_packet, my_info, node_info, metadata,
}
use diginode_cc.Serial.Config.{no_config, decode_config}
use diginode_cc.Serial.Config.Message.{decode_config-Returns}
use diginode_cc.Serial.Node.{decode_my_info, decode_node_info}
use diginode_cc.Serial.Node.Total.{decode_my_info-Returns, decode_node_info-Returns}
use diginode_cc.Serial.Packet.{decode_mesh_packet}
use diginode_cc.Serial.Packet.Total.{decode_mesh_packet-Returns}
use diginode_cc.Serial.Wire.{
  empty_frame, truncated_varint, truncated_length, truncated_payload, truncated_fixed32,
  truncated_fixed64, unknown_wire_type,
}

module _ (bytes : List ℕ) (fits : Fits bytes) (small : SmallLengths bytes) where
  metadata_dispatch : List ℕ → ℕ → ℕ → ℕ → DeviceMetadata → Flow (DeviceMetadata × ℕ)
  metadata_dispatch b field wire pos s =
      if wire == 2
      then bytes_field set_metadata_bytes b field pos s
      else if wire == 0
      then varint_field set_metadata b field pos s
      else skipped_field b wire pos s

  metadata_dispatch-Holds :
      (field wire pos : ℕ) (s : DeviceMetadata)
      → pos ≤ length bytes
      → SmallBehind bytes fits wire pos
      → Holds (Forward pos) (metadata_dispatch bytes field wire pos s)
  unfolding metadata_dispatch
  metadata_dispatch-Holds field wire pos s h behind = elim (Bool-cases (wire == 2)) [
    | inl e ↦ rw e (
        bytes_field-Holds bytes fits set_metadata_bytes field pos s h
          (behind ((==_iff wire 2).0 e)))
    | inr e ↦ elim (Bool-cases (wire == 0)) [
      | inl f ↦ rw (e, f) (varint_field-Holds bytes fits set_metadata field pos s h)
      | inr f ↦ rw (e, f) (skipped_field-Holds bytes fits wire pos s h behind)
    ]
  ]

  metadata_body-IsSafe : IsSafe metadata_body bytes
  unfolding metadata_body metadata_dispatch
  metadata_body-IsSafe =
      tagged-IsSafe bytes fits (SmallBehind bytes fits) metadata_body metadata_dispatch
        (SmallLengths-behind bytes fits small) (λ _ _. refl) metadata_dispatch-Holds

  pub decode_metadata-Returns : Returns (decode_metadata bytes)
  unfolding decode_metadata
  decode_metadata-Returns =
      decode_fields-Returns metadata_body bytes fits metadata_body-IsSafe no_metadata

set_part_lem :
    (field : ℕ) (sub : List ℕ) (pkt : FromRadioPacket)
    → set_part field sub pkt ≡ (
        if field == 2
        then (call (decode_mesh_packet sub) >>= λ p.
            go (record pkt { kind = mesh_packet; mesh_packet_part = some p }))
        else if field == 3
        then (call (decode_my_info sub) >>= λ p.
            go (record pkt { kind = my_info; my_info_part = some p }))
        else if field == 4
        then (call (decode_node_info sub) >>= λ p.
            go (record pkt { kind = node_info; node_info_part = some p }))
        else if field == 5
        then (call (decode_config sub) >>= λ p.
            go (record pkt { kind = config; config_part = some p }))
        else if field == 9
        then go (record pkt { kind = config; config_part = some (no_config sub) })
        else if field == 10
        then go (record pkt { kind = channel })
        else if field == 13
        then (call (decode_metadata sub) >>= λ p.
            go (record pkt { kind = metadata; metadata_part = some p }))
        else go pkt)
unfolding set_part
set_part_lem field sub pkt = refl

module _ (bytes : List ℕ) (fits : Fits bytes) (small : SmallLengths bytes) where
  parts :
      (field : ℕ) (s : FromRadioPacket) (start k : ℕ)
      → Holds (λ s'. Unit {0}) (set_part field (take k (drop start bytes)) s)
  parts field s start k =
      let sub = take k (drop start bytes) in
      let fits' = Fits-slice start k bytes fits in
      let small' = SmallLengths-slice start k bytes small in
      rw (set_part_lem field sub s) (elim (Bool-cases (field == 2)) [
        | inl e ↦
            rw e
              (Holds-call (decode_mesh_packet sub) _ (decode_mesh_packet-Returns sub fits' small'))
        | inr e ↦ elim (Bool-cases (field == 3)) [
          | inl f ↦
              rw (e, f)
                (Holds-call (decode_my_info sub) _ (decode_my_info-Returns sub fits' small'))
          | inr f ↦ elim (Bool-cases (field == 4)) [
            | inl g ↦
                rw (e, f, g)
                  (Holds-call (decode_node_info sub) _ (decode_node_info-Returns sub fits' small'))
            | inr g ↦ elim (Bool-cases (field == 5)) [
              | inl h ↦
                  rw (e, f, g, h)
                    (Holds-call (decode_config sub) _ (decode_config-Returns sub fits' small'))
              | inr h ↦ elim (Bool-cases (field == 9)) [
                | inl i ↦ rw (e, f, g, h, i) tt
                | inr i ↦ elim (Bool-cases (field == 10)) [
                  | inl j ↦ rw (e, f, g, h, i, j) tt
                  | inr j ↦ elim (Bool-cases (field == 13)) [
                    | inl l ↦
                        rw (e, f, g, h, i, j, l)
                          (Holds-call (decode_metadata sub) _
                            (decode_metadata-Returns sub fits' small'))
                    | inr l ↦ rw (e, f, g, h, i, j, l) tt
                  ]
                ]
              ]
            ]
          ]
        ]
      ])

  pass_varint :
      (field pos : ℕ) (s : FromRadioPacket)
      → pos ≤ length bytes
      → Holds (Forward pos) (
          read_varint (some (truncated_varint field)) bytes pos >>= λ r. go (set_kind field s, r.1))
  pass_varint field pos s h =
      Holds-bind (IsVarintAt bytes pos) (Forward pos)
        (read_varint (some (truncated_varint field)) bytes pos) _
        (read_varint-Holds bytes fits (some (truncated_varint field)) pos h)
        (λ r at_pos. (at_pos.2, omega (arith, at_pos.3)))

  pass_bytes :
      (field pos : ℕ) (s : FromRadioPacket)
      → pos ≤ length bytes
      → SmallAt bytes fits pos
      → Holds (Forward pos) (
          read_bytes (some (truncated_length field)) (some (truncated_payload field)) bytes pos
          >>= λ r. set_part field r.0 s >>= λ s'. go (s', r.1))
  pass_bytes field pos s h small_len =
      Holds-bind (IsSlice bytes fits pos) (Forward pos)
        (read_bytes (some (truncated_length field)) (some (truncated_payload field)) bytes pos) _
        (read_bytes-Holds bytes fits (some (truncated_length field))
          (some (truncated_payload field)) pos h small_len)
        (λ r cut.
          Holds-bind (λ s'. Unit {0}) (Forward pos) (set_part field r.0 s) _
            (rw cut.2 (parts field s cut.0 cut.1)) (λ s' _. (cut.3, omega (arith, cut.4))))

  pass_fixed :
      (width : ℕ) (e : Option DecodeError) (pos : ℕ) (s : FromRadioPacket)
      → 0 < width
      → width < 2 ^ 62
      → pos ≤ length bytes
      → Holds (Forward pos) (skip_bytes width e bytes pos >>= λ end. go (s, end))
  pass_fixed width e pos s hw small_width h =
      Holds-bind _ (Forward pos) (skip_bytes width e bytes pos) _
        (skip_bytes-Holds bytes fits width e pos hw small_width h)
        (λ end ahead. (ahead.0, omega (arith, ahead.1)))

  from_radio_dispatch : List ℕ → ℕ → ℕ → ℕ → FromRadioPacket → Flow (FromRadioPacket × ℕ)
  from_radio_dispatch b field wire pos s =
      if wire == 0
      then (read_varint (some (truncated_varint field)) b pos >>= λ r. go (set_kind field s, r.1))
      else if wire == 2
      then (read_bytes (some (truncated_length field)) (some (truncated_payload field)) b pos
          >>= λ r. set_part field r.0 s >>= λ s'. go (s', r.1))
      else if wire == 5
      then (skip_bytes 4 (some (truncated_fixed32 field)) b pos >>= λ end. go (s, end))
      else if wire == 1
      then (skip_bytes 8 (some (truncated_fixed64 field)) b pos >>= λ end. go (s, end))
      else exit (some (unknown_wire_type wire field))

  from_radio_dispatch-Holds :
      (field wire pos : ℕ) (s : FromRadioPacket)
      → pos ≤ length bytes
      → SmallBehind bytes fits wire pos
      → Holds (Forward pos) (from_radio_dispatch bytes field wire pos s)
  unfolding from_radio_dispatch
  from_radio_dispatch-Holds field wire pos s h behind = elim (Bool-cases (wire == 0)) [
    | inl e ↦ rw e (pass_varint field pos s h)
    | inr e ↦ elim (Bool-cases (wire == 2)) [
      | inl f ↦ rw (e, f) (pass_bytes field pos s h (behind ((==_iff wire 2).0 f)))
      | inr f ↦ elim (Bool-cases (wire == 5)) [
        | inl g ↦ rw (e, f, g) (pass_fixed 4 _ pos s (omega arith) (omega arith) h)
        | inr g ↦ elim (Bool-cases (wire == 1)) [
          | inl i ↦ rw (e, f, g, i) (pass_fixed 8 _ pos s (omega arith) (omega arith) h)
          | inr i ↦ rw (e, f, g, i) (tt)
        ]
      ]
    ]
  ]

  from_radio_body-IsSafe : IsSafe from_radio_body bytes
  unfolding from_radio_body from_radio_dispatch
  from_radio_body-IsSafe =
      tagged-IsSafe bytes fits (SmallBehind bytes fits) from_radio_body from_radio_dispatch
        (SmallLengths-behind bytes fits small) (λ _ _. refl) from_radio_dispatch-Holds

with_packet-Returns : (o : Outcome FromRadioPacket) → Returns o → Returns (with_packet o)
unfolding with_packet
with_packet-Returns o (pkt, e, p) = (some pkt, e, rw p)

decode_from_radio_lem :
    (b : ℕ) (bs : List ℕ)
    → decode_from_radio (b ∷ bs)
      ≡ with_packet (decode_fields from_radio_body (b ∷ bs) (no_part (b ∷ bs)))
unfolding decode_from_radio
decode_from_radio_lem b bs = refl

decode_from_radio-nil : decode_from_radio [] ≡ returned none (some empty_frame)
unfolding decode_from_radio
decode_from_radio-nil = refl

-- `DecodeFromRadio` returns, with a packet or an error, on every frame of fewer than 2 ^ 62 bytes
-- in which each length-delimited field that can be read, at whatever position, has a length below
-- 2 ^ 62: it does not panic and does not loop forever, and neither do the decoders that it calls.
pub decode_from_radio-Returns :
    (bytes : List ℕ) → Fits bytes → SmallLengths bytes → Returns (decode_from_radio bytes)
decode_from_radio-Returns [] fits small = (none, some empty_frame, decode_from_radio-nil)
decode_from_radio-Returns (b ∷ bs) fits small = rw (decode_from_radio_lem b bs) (
    with_packet-Returns (decode_fields from_radio_body (b ∷ bs) (no_part (b ∷ bs))) (
      decode_fields-Returns from_radio_body (b ∷ bs) fits
        (from_radio_body-IsSafe (b ∷ bs) fits small) (no_part (b ∷ bs))))
