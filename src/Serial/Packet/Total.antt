-- ===== src/Serial/Packet/Total.antt =====
-- `decodeMeshPacket` and `decodeDataPayload` return on every input with small lengths.
use diginode_cc.Prelude.{
  ℕ, ◌≤◌, ◌<◌, ◌^◌, ◌≡◌, refl, none, Bool-cases, inl, inr, ◌==◌, ==_iff, List, take, drop, length,
  arith, if◌then◌else◌,
}
use diginode_cc.Serial.Field.{varint_field, message_field, fixed32_field, skipped_field}
use diginode_cc.Serial.Field.Total.{
  SmallLengths, SmallBehind, SmallLengths-behind, tagged-IsSafe, varint_field-Holds,
  message_field-Holds, fixed32_field-Holds, skipped_field-Holds,
}
use diginode_cc.Serial.Field.Slices.{SmallLengths-slice, Fits-slice}
use diginode_cc.Serial.Wire.{Flow, go, exit, ◌>>=◌, call, read_varint, slice, add_int, is_past}
use diginode_cc.Serial.Wire.Chunks.{Fits}
use diginode_cc.Serial.Wire.Total.{
  Holds, Holds-bind, Holds-call, Forward, Returns, IsSafe, decode_fields-Returns,
}
use diginode_cc.Serial.Wire.Readers.{IsVarintAt, SmallAt, read_varint-Holds, slice-Holds}
use diginode_cc.Serial.Packet.{
  DataPayload, no_data, set_data, set_data_fixed, data_bytes, data_body, decode_data_payload,
  MeshPacketData, no_packet, set_packet, set_packet_message, set_packet_fixed, packet_body,
  decode_mesh_packet,
}

data_bytes_lem :
    (bytes : List ℕ) (field pos : ℕ) (d : DataPayload)
    → data_bytes bytes field pos d ≡ (
        read_varint none bytes pos >>= λ r.
        (if is_past (add_int r.1 r.0) bytes
          then exit none
          else if field == 2
          then (slice bytes r.1 (add_int r.1 r.0) >>= λ sub.
              go (record d { payload = sub }, add_int r.1 r.0))
          else go (d, add_int r.1 r.0)))
unfolding data_bytes
data_bytes_lem bytes field pos d = refl

module _ (bytes : List ℕ) (fits : Fits bytes) (small : SmallLengths bytes) where
  data_bytes-rest :
      (field pos : ℕ) (r : ℕ × ℕ) (s : DataPayload)
      → SmallAt bytes fits pos
      → IsVarintAt bytes pos r
      → Holds (Forward pos) (
          if is_past (add_int r.1 r.0) bytes
          then exit none
          else if field == 2
          then (slice bytes r.1 (add_int r.1 r.0) >>= λ sub.
              go (record s { payload = sub }, add_int r.1 r.0))
          else go (s, add_int r.1 r.0))
  data_bytes-rest field pos (v, start) s small_len at_pos =
      let small_v : v < 2 ^ 62 = omega (arith, at_pos.0) in
      elim (Bool-cases (is_past (add_int start v) bytes)) [
        | inl f ↦ rw f tt
        | inr f ↦
            let cut = slice-Holds bytes fits start v at_pos.3 small_v f in
            let ahead : pos < add_int start v = omega (arith, at_pos.2, cut.1) in
            let below : add_int start v < 2 ^ 63 = omega (arith, cut.2) in
            elim (Bool-cases (field == 2)) [
              | inl g ↦ rw (f, g, cut.0) (ahead, below)
              | inr g ↦ rw (f, g) (ahead, below)
            ]
      ]

  data_bytes-Holds :
      (field pos : ℕ) (s : DataPayload)
      → pos ≤ length bytes
      → SmallAt bytes fits pos
      → Holds (Forward pos) (data_bytes bytes field pos s)
  data_bytes-Holds field pos s h small_len = rw (data_bytes_lem bytes field pos s) (
      Holds-bind (IsVarintAt bytes pos) (Forward pos) (read_varint none bytes pos) _
        (read_varint-Holds bytes fits none pos h)
        (λ r at_pos. data_bytes-rest field pos r s small_len at_pos))

  data_dispatch : List ℕ → ℕ → ℕ → ℕ → DataPayload → Flow (DataPayload × ℕ)
  data_dispatch b field wire pos s =
      if wire == 0
      then varint_field set_data b field pos s
      else if wire == 2
      then data_bytes b field pos s
      else if wire == 5
      then fixed32_field set_data_fixed b field pos s
      else skipped_field b wire pos s

  data_dispatch-Holds :
      (field wire pos : ℕ) (s : DataPayload)
      → pos ≤ length bytes
      → SmallBehind bytes fits wire pos
      → Holds (Forward pos) (data_dispatch bytes field wire pos s)
  unfolding data_dispatch
  data_dispatch-Holds field wire pos s h behind = elim (Bool-cases (wire == 0)) [
    | inl e ↦ rw e (varint_field-Holds bytes fits set_data field pos s h)
    | inr e ↦ elim (Bool-cases (wire == 2)) [
      | inl f ↦ rw (e, f) (data_bytes-Holds field pos s h (behind ((==_iff wire 2).0 f)))
      | inr f ↦ elim (Bool-cases (wire == 5)) [
        | inl g ↦ rw (e, f, g) (fixed32_field-Holds bytes fits set_data_fixed field pos s h)
        | inr g ↦ rw (e, f, g) (skipped_field-Holds bytes fits wire pos s h behind)
      ]
    ]
  ]

  data_body-IsSafe : IsSafe data_body bytes
  unfolding data_body data_dispatch
  data_body-IsSafe =
      tagged-IsSafe bytes fits (SmallBehind bytes fits) data_body data_dispatch
        (SmallLengths-behind bytes fits small) (λ _ _. refl) data_dispatch-Holds

  pub decode_data_payload-Returns : Returns (decode_data_payload bytes)
  unfolding decode_data_payload
  decode_data_payload-Returns = decode_fields-Returns data_body bytes fits data_body-IsSafe no_data

set_packet_message_lem :
    (field : ℕ) (sub : List ℕ) (mp : MeshPacketData)
    → set_packet_message field sub mp ≡ (
        if field == 4
        then (call (decode_data_payload sub) >>= λ d.
            go
              (record mp { port_num = d.port_num; payload = d.payload; request_id = d.request_id }))
        else go mp)
unfolding set_packet_message
set_packet_message_lem field sub mp = refl

module _ (bytes : List ℕ) (fits : Fits bytes) (small : SmallLengths bytes) where
  packet_messages :
      (field : ℕ) (s : MeshPacketData) (start k : ℕ)
      → Holds (λ s'. Unit {0}) (set_packet_message field (take k (drop start bytes)) s)
  packet_messages field s start k =
      let sub = take k (drop start bytes) in
      rw (set_packet_message_lem field sub s) (elim (Bool-cases (field == 4)) [
        | inl e ↦ rw e (
            Holds-call (decode_data_payload sub) _ (
              decode_data_payload-Returns sub (Fits-slice start k bytes fits)
                (SmallLengths-slice start k bytes small)))
        | inr e ↦ rw e tt
      ])

  packet_dispatch : List ℕ → ℕ → ℕ → ℕ → MeshPacketData → Flow (MeshPacketData × ℕ)
  packet_dispatch b field wire pos s =
      if wire == 0
      then varint_field set_packet b field pos s
      else if wire == 2
      then message_field set_packet_message b field pos s
      else if wire == 5
      then fixed32_field set_packet_fixed b field pos s
      else skipped_field b wire pos s

  packet_dispatch-Holds :
      (field wire pos : ℕ) (s : MeshPacketData)
      → pos ≤ length bytes
      → SmallBehind bytes fits wire pos
      → Holds (Forward pos) (packet_dispatch bytes field wire pos s)
  unfolding packet_dispatch
  packet_dispatch-Holds field wire pos s h behind = elim (Bool-cases (wire == 0)) [
    | inl e ↦ rw e (varint_field-Holds bytes fits set_packet field pos s h)
    | inr e ↦ elim (Bool-cases (wire == 2)) [
      | inl f ↦
          rw (e, f)
            (message_field-Holds bytes fits set_packet_message field pos s h
              (behind ((==_iff wire 2).0 f)) (packet_messages field s))
      | inr f ↦ elim (Bool-cases (wire == 5)) [
        | inl g ↦ rw (e, f, g) (fixed32_field-Holds bytes fits set_packet_fixed field pos s h)
        | inr g ↦ rw (e, f, g) (skipped_field-Holds bytes fits wire pos s h behind)
      ]
    ]
  ]

  packet_body-IsSafe : IsSafe packet_body bytes
  unfolding packet_body packet_dispatch
  packet_body-IsSafe =
      tagged-IsSafe bytes fits (SmallBehind bytes fits) packet_body packet_dispatch
        (SmallLengths-behind bytes fits small) (λ _ _. refl) packet_dispatch-Holds

  pub decode_mesh_packet-Returns : Returns (decode_mesh_packet bytes)
  unfolding decode_mesh_packet
  decode_mesh_packet-Returns =
      decode_fields-Returns packet_body bytes fits packet_body-IsSafe no_packet
