-- ===== src/Serial/Packet/RoundTrip.antt =====
-- `decodeMeshPacket` on what `buildMeshPacket` and `buildDataMessage` (internal/serial/encode.go)
-- write.
use diginode_cc.Prelude.{
  ℕ, ◌<◌, ◌^◌, ◌≡◌, refl, ap, ◌∙◌, true, none, List, ◌++◌, append-nil, length, length-append, All,
  IsByte, arith,
}
use native.Mathlib.Nat.{mod-eq_of_lt}
use diginode_cc.Serial.Varint.{IsU32, u32, encode_varint}
use diginode_cc.Serial.Encode.{
  encode_varint_field, encode_length_delimited, encode_fixed32_field, build_data_message,
  random_packet_id, build_mesh_packet,
}
use diginode_cc.Serial.Encode.Laws.{
  build_data_message_lem, build_mesh_packet_lem, random_packet_id-IsU32, length-encode_varint_field,
  length-encode_length_delimited, length-encode_fixed32_field, varint_chunk, delimited_chunk,
  fixed32_chunk,
}
use diginode_cc.Serial.Field.{varint_field, bytes_field, message_field, fixed32_field}
use diginode_cc.Serial.Field.Chunks.{
  Dispatches, Handles, bytes_field-Handles, message_field-Handles,
}
use diginode_cc.Serial.Packet.{
  DataPayload, no_data, set_data, data_bytes, data_body, decode_data_payload, MeshPacketData,
  no_packet, set_packet, set_packet_message, set_packet_fixed, packet_body, decode_mesh_packet,
}
use diginode_cc.Serial.Wire.{go, call, ◌>>=◌, returned, read_varint, read_bytes, decode_fields}
use diginode_cc.Serial.Wire.Chunks.{Chunks, end, decode_fields-Chunks}

data_body-varint : (field : ℕ) → Dispatches data_body field 0 (varint_field set_data)
unfolding data_body
data_body-varint field bytes pos pos' s e = rw e

data_body-bytes : (field : ℕ) → Dispatches data_body field 2 data_bytes
unfolding data_body
data_body-bytes field bytes pos pos' s e = rw e

set_payload : ℕ → List ℕ → DataPayload → DataPayload
set_payload field sub d = record d { payload = sub }

-- On field 2 it reads the bytes as the other decoders do.
data_bytes-payload :
    (bytes : List ℕ) (pos : ℕ) (d : DataPayload)
    → data_bytes bytes 2 pos d ≡ bytes_field set_payload bytes 2 pos d
unfolding data_bytes bytes_field set_payload read_bytes read_varint
data_bytes-payload bytes pos d = ground arith

data_bytes-Handles :
    (sub : List ℕ) (s : DataPayload)
    → Handles data_bytes 2 (encode_varint (length sub) ++ sub) s (record s { payload = sub })
unfolding set_payload
data_bytes-Handles sub s front rest fits =
    data_bytes-payload _ _ s ∙ bytes_field-Handles set_payload 2 sub s front rest fits

decode_data_payload_lem :
    (bytes : List ℕ) → decode_data_payload bytes ≡ decode_fields data_body bytes no_data
unfolding decode_data_payload
decode_data_payload_lem bytes = refl

length-data_message :
    (port : ℕ) (payload : List ℕ)
    → IsU32 port
    → length payload < 2 ^ 60
    → length (build_data_message port payload) < 2 ^ 61
length-data_message port payload hp fits = rw (build_data_message_lem port payload) (
    omega (
      arith,
      length-append (encode_varint_field 1 port) (encode_length_delimited 2 payload),
      length-encode_varint_field 1 port (omega arith) (omega arith),
      length-encode_length_delimited 2 payload (omega arith) (omega arith),
    ))

abbrev data_of : ℕ → List ℕ → DataPayload
data_of port payload = record { port_num = port; payload = payload; request_id = 0 }

data_message-Chunks :
    (port : ℕ) (payload : List ℕ)
    → IsU32 port
    → Chunks data_body no_data (build_data_message port payload) (data_of (u32 port) payload)
unfolding set_data
data_message-Chunks port payload hp =
    let data_end = encode_length_delimited 2 payload in
    rw (build_data_message_lem port payload) (
      rw (← append-nil data_end) (
        varint_chunk data_body set_data 1 port (omega arith) (omega arith) (data_body-varint 1) (
          delimited_chunk data_body data_bytes 2 payload (omega arith) (data_body-bytes 2)
            (data_bytes-Handles payload _) end)))

-- `decodeDataPayload` reads back the port and the payload of `buildDataMessage`.
pub decode_data_payload-build_data_message :
    (port : ℕ) (payload : List ℕ)
    → IsU32 port
    → length payload < 2 ^ 60
    → decode_data_payload (build_data_message port payload) ≡ returned (data_of port payload) none
decode_data_payload-build_data_message port payload hp fits =
    decode_data_payload_lem (build_data_message port payload)
    ∙ decode_fields-Chunks data_body (data_message-Chunks port payload hp)
        (omega (arith, length-data_message port payload hp fits))
    ∙ ap (λ (p : ℕ). returned (data_of p payload) none) (mod-eq_of_lt hp)

packet_body-varint : (field : ℕ) → Dispatches packet_body field 0 (varint_field set_packet)
unfolding packet_body
packet_body-varint field bytes pos pos' s e = rw e

packet_body-message :
    (field : ℕ) → Dispatches packet_body field 2 (message_field set_packet_message)
unfolding packet_body
packet_body-message field bytes pos pos' s e = rw e

packet_body-fixed32 : (field : ℕ) → Dispatches packet_body field 5 (fixed32_field set_packet_fixed)
unfolding packet_body
packet_body-fixed32 field bytes pos pos' s e = rw e

set_packet_message_lem :
    (message : List ℕ) (mp : MeshPacketData)
    → set_packet_message 4 message mp ≡ (
        call (decode_data_payload message) >>= λ d.
        go (record mp { port_num = d.port_num; payload = d.payload; request_id = d.request_id }))
unfolding set_packet_message
set_packet_message_lem message mp = refl

decode_mesh_packet_lem :
    (bytes : List ℕ) → decode_mesh_packet bytes ≡ decode_fields packet_body bytes no_packet
unfolding decode_mesh_packet
decode_mesh_packet_lem bytes = refl

length-mesh_packet :
    (b : List ℕ) (to : ℕ) (message : List ℕ)
    → length message < 2 ^ 61
    → length (build_mesh_packet b to message) < 2 ^ 62
length-mesh_packet b to message h =
    let id = random_packet_id b in
    let f2 = encode_fixed32_field 2 to in
    let f3 = encode_varint_field 3 0 in
    let f4 = encode_length_delimited 4 message in
    let f6 = encode_fixed32_field 6 id in
    let f10 = encode_varint_field 10 3 in
    let f11 = encode_varint_field 11 1 in
    rw (build_mesh_packet_lem b to message) (
      omega (
        arith,
        length-append f2 (f3 ++ (f4 ++ (f6 ++ (f10 ++ f11)))),
        length-append f3 (f4 ++ (f6 ++ (f10 ++ f11))),
        length-append f4 (f6 ++ (f10 ++ f11)),
        length-append f6 (f10 ++ f11),
        length-append f10 f11,
        length-encode_fixed32_field 2 to (omega arith),
        length-encode_varint_field 3 0 (omega arith) (omega arith),
        length-encode_length_delimited 4 message (omega arith) (omega arith),
        length-encode_fixed32_field 6 id (omega arith),
        length-encode_varint_field 10 3 (omega arith) (omega arith),
        length-encode_varint_field 11 1 (omega arith) (omega arith),
      ))

set_packet_message-data :
    (message : List ℕ) (d : DataPayload) (mp : MeshPacketData)
    → decode_data_payload message ≡ returned d none
    → set_packet_message 4 message mp
      ≡ go (record mp { port_num = d.port_num; payload = d.payload; request_id = d.request_id })
set_packet_message-data message d mp e = rw (set_packet_message_lem message mp, e)

-- The packet that `buildMeshPacket` describes: what it is given, and its constants.
abbrev pub packet_of : List ℕ → ℕ → ℕ → List ℕ → MeshPacketData
packet_of b to port payload = record no_packet {
  to = to;
  id = random_packet_id b;
  hop_limit = 3;
  want_ack = true;
  port_num = port;
  payload = payload;
}

mesh_packet-Chunks :
    (b : List ℕ) (to port : ℕ) (payload : List ℕ)
    → All IsByte b
    → IsU32 to
    → IsU32 port
    → length payload < 2 ^ 60
    → Chunks packet_body no_packet
        (build_mesh_packet b to (build_data_message port payload))
        (packet_of b to port payload)
unfolding set_packet set_packet_fixed
mesh_packet-Chunks b to port payload hb ht hp fits =
    let message = build_data_message port payload in
    let id = random_packet_id b in
    let ack = encode_varint_field 11 1 in
    rw (build_mesh_packet_lem b to message) (
      rw (← append-nil ack) (
        fixed32_chunk packet_body set_packet_fixed 2 to (omega arith) ht (packet_body-fixed32 2) (
          varint_chunk packet_body set_packet 3 0 (omega arith) (omega arith) (packet_body-varint 3)
            (delimited_chunk packet_body (message_field set_packet_message) 4 message (omega arith)
              (packet_body-message 4)
              (message_field-Handles set_packet_message 4 message _ _ (
                set_packet_message-data message (data_of port payload) _
                  (decode_data_payload-build_data_message port payload hp fits)))
              (fixed32_chunk packet_body set_packet_fixed 6 id (omega arith)
                (random_packet_id-IsU32 b hb) (packet_body-fixed32 6)
                (varint_chunk packet_body set_packet 10 3 (omega arith) (omega arith)
                  (packet_body-varint 10)
                  (varint_chunk packet_body set_packet 11 1 (omega arith) (omega arith)
                    (packet_body-varint 11) end)))))))

-- `decodeMeshPacket` reads back what `buildMeshPacket` wrote around a `Data` message with a payload
-- of fewer than 2 ^ 60 bytes, an address and a port that are uint32, and whatever random bytes:
-- the address, the port and the payload that were given, the packet id of the random bytes, and the
-- constants channel 0, hop limit 3 and want_ack. It returns, and no other field is set.
pub decode_mesh_packet-build_mesh_packet :
    (b : List ℕ) (to port : ℕ) (payload : List ℕ)
    → All IsByte b
    → IsU32 to
    → IsU32 port
    → length payload < 2 ^ 60
    → decode_mesh_packet (build_mesh_packet b to (build_data_message port payload))
      ≡ returned (packet_of b to port payload) none
decode_mesh_packet-build_mesh_packet b to port payload hb ht hp fits =
    let message = build_data_message port payload in
    decode_mesh_packet_lem (build_mesh_packet b to message)
    ∙ decode_fields-Chunks packet_body (mesh_packet-Chunks b to port payload hb ht hp fits) (
        omega (
          arith,
          length-mesh_packet b to message (omega (arith, length-data_message port payload hp fits)),
        ))
