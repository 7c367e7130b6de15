-- ===== src/Serial/Packet.antt =====
-- `decodeMeshPacket` and `decodeDataPayload` (internal/serial/framing.go). A float32 and an int32
-- are their bit patterns.
pub mod RoundTrip
pub mod Total
use diginode_cc.Prelude.{ℕ, Bool, false, Option, none, some, List, [], ◌∷◌, ◌==◌, if◌then◌else◌}
use diginode_cc.Serial.Varint.{u32, decode_zigzag}
use diginode_cc.Serial.Field.{is_set, varint_field, message_field, fixed32_field, skipped_field}
use diginode_cc.Serial.Wire.{
  Flow, go, exit, panic, hang, Outcome, call, ◌>>=◌, add_int, is_past, slice, read_tag, read_varint,
  decode_fields,
}

-- The three results of `decodeDataPayload`.
pub record DataPayload : Type 0 where
  pub port_num : ℕ
  pub payload : List ℕ
  pub request_id : ℕ

abbrev pub no_data : DataPayload
no_data = record { port_num = 0; payload = []; request_id = 0 }

pub set_data : ℕ → ℕ → DataPayload → DataPayload
set_data field val d = if field == 1 then record d { port_num = u32 val } else d

pub set_data_fixed : ℕ → ℕ → DataPayload → DataPayload
set_data_fixed field val d = if field == 6 then record d { request_id = val } else d

-- A length-delimited field. Only field 2 is sliced (`make` panics where the slice does); any
-- other is passed over by `pos += int(length)`, wherever that leads.
pub data_bytes : List ℕ → ℕ → ℕ → DataPayload → Flow (DataPayload × ℕ)
unfolding read_varint slice
data_bytes bytes field pos d = do
  (len, start) ← read_varint none bytes pos
  let end = add_int start len
  if is_past end bytes
      then exit none
      else if field == 2
      then (do sub ← slice bytes start end; go (record d { payload = sub }, end))
      else go (d, end)

pub data_body : List ℕ → ℕ → DataPayload → Flow (DataPayload × ℕ)
unfolding read_tag varint_field data_bytes fixed32_field skipped_field set_data set_data_fixed
data_body bytes pos d = do
  (field, wire, pos') ← read_tag bytes pos
  if wire == 0
      then varint_field set_data bytes field pos' d
      else if wire == 2
      then data_bytes bytes field pos' d
      else if wire == 5
      then fixed32_field set_data_fixed bytes field pos' d
      else skipped_field bytes wire pos' d

unfoldable pub decode_data_payload : List ℕ → Outcome DataPayload
unfolding decode_fields data_body
decode_data_payload bytes = decode_fields data_body bytes no_data

pub record MeshPacketData : Type 0 where
  pub from : ℕ
  pub to : ℕ
  pub channel : ℕ
  pub id : ℕ
  pub rx_time : ℕ
  pub rx_snr : ℕ  -- float32
  pub rx_rssi : ℕ  -- int32
  pub hop_limit : ℕ
  pub hop_start : ℕ
  pub priority : ℕ
  pub port_num : ℕ
  pub payload : List ℕ
  pub want_ack : Bool
  pub request_id : ℕ

abbrev pub no_packet : MeshPacketData
no_packet = record {
  from = 0;
  to = 0;
  channel = 0;
  id = 0;
  rx_time = 0;
  rx_snr = 0;
  rx_rssi = 0;
  hop_limit = 0;
  hop_start = 0;
  priority = 0;
  port_num = 0;
  payload = [];
  want_ack = false;
  request_id = 0;
}

pub set_packet : ℕ → ℕ → MeshPacketData → MeshPacketData
unfolding decode_zigzag
set_packet field val mp =
    if field == 1
    then record mp { from = u32 val }
    else if field == 2
    then record mp { to = u32 val }
    else if field == 3
    then record mp { channel = u32 val }
    else if field == 6
    then record mp { id = u32 val }
    else if field == 7
    then record mp { rx_time = u32 val }
    else if field == 9
    then record mp { rx_rssi = u32 (decode_zigzag val) }
    else if field == 10
    then record mp { hop_limit = u32 val }
    else if field == 11
    then record mp { want_ack = is_set val }
    else if field == 12
    then record mp { priority = u32 val }
    else if field == 15
    then record mp { hop_start = u32 val }
    else mp

pub set_packet_message : ℕ → List ℕ → MeshPacketData → Flow MeshPacketData
unfolding decode_data_payload
set_packet_message field sub mp =
    if field == 4
    then (do
      d ← call (decode_data_payload sub)
      go (record mp { port_num = d.port_num; payload = d.payload; request_id = d.request_id }))
    else go mp

pub set_packet_fixed : ℕ → ℕ → MeshPacketData → MeshPacketData
set_packet_fixed field val mp =
    if field == 1
    then record mp { from = val }
    else if field == 2
    then record mp { to = val }
    else if field == 6
    then record mp { id = val }
    else if field == 7
    then record mp { rx_time = val }
    else if field == 8
    then record mp { rx_snr = val }
    else if field == 9
    then record mp { rx_rssi = val }
    else mp

pub packet_body : List ℕ → ℕ → MeshPacketData → Flow (MeshPacketData × ℕ)
unfolding read_tag varint_field message_field fixed32_field skipped_field set_packet
    set_packet_message set_packet_fixed
packet_body bytes pos mp = do
  (field, wire, pos') ← read_tag bytes pos
  if wire == 0
      then varint_field set_packet bytes field pos' mp
      else if wire == 2
      then message_field set_packet_message bytes field pos' mp
      else if wire == 5
      then fixed32_field set_packet_fixed bytes field pos' mp
      else skipped_field bytes wire pos' mp

unfoldable pub decode_mesh_packet : List ℕ → Outcome MeshPacketData
unfolding decode_fields packet_body
decode_mesh_packet bytes = decode_fields packet_body bytes no_packet
