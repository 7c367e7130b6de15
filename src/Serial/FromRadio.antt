-- ===== src/Serial/FromRadio.antt =====
-- `DecodeFromRadio` and `decodeMetadata` (internal/serial/framing.go).
pub mod Total
pub mod Malformed
use diginode_cc.Prelude.{ℕ, Bool, false, Option, none, some, List, [], ◌∷◌, ◌==◌, if◌then◌else◌}
use diginode_cc.Serial.Varint.{u32}
use diginode_cc.Serial.Config.{ConfigPayload, no_config, decode_config}
use diginode_cc.Serial.Node.{MyNodeInfo, NodeInfoLite, decode_my_info, decode_node_info}
use diginode_cc.Serial.Packet.{MeshPacketData, decode_mesh_packet}
use diginode_cc.Serial.Field.{is_set, varint_field, bytes_field, skipped_field}
use diginode_cc.Serial.Wire.{
  Flow, go, exit, panic, hang, Outcome, returned, panicked, running, DecodeError, empty_frame,
  truncated_varint, truncated_length, truncated_payload, truncated_fixed32, truncated_fixed64,
  unknown_wire_type, call, ◌>>=◌, read_tag, read_varint, read_bytes, skip_bytes, decode_fields,
}

pub record DeviceMetadata : Type 0 where
  pub firmware_version : List ℕ
  pub device_state_version : ℕ
  pub has_bluetooth : Bool
  pub has_wifi : Bool
  pub has_ethernet : Bool

abbrev pub no_metadata : DeviceMetadata
no_metadata = record {
  firmware_version = [];
  device_state_version = 0;
  has_bluetooth = false;
  has_wifi = false;
  has_ethernet = false;
}

pub set_metadata_bytes : ℕ → List ℕ → DeviceMetadata → DeviceMetadata
set_metadata_bytes field s meta = if field == 1 then record meta { firmware_version = s } else meta

pub set_metadata : ℕ → ℕ → DeviceMetadata → DeviceMetadata
set_metadata field val meta =
    if field == 2
    then record meta { device_state_version = u32 val }
    else if field == 4
    then record meta { has_bluetooth = is_set val }
    else if field == 5
    then record meta { has_wifi = is_set val }
    else if field == 6
    then record meta { has_ethernet = is_set val }
    else meta

pub metadata_body : List ℕ → ℕ → DeviceMetadata → Flow (DeviceMetadata × ℕ)
unfolding read_tag varint_field bytes_field skipped_field set_metadata_bytes set_metadata
metadata_body bytes pos meta = do
  (field, wire, pos') ← read_tag bytes pos
  if wire == 2
      then bytes_field set_metadata_bytes bytes field pos' meta
      else if wire == 0
      then varint_field set_metadata bytes field pos' meta
      else skipped_field bytes wire pos' meta

unfoldable pub decode_metadata : List ℕ → Outcome DeviceMetadata
unfolding decode_fields metadata_body
decode_metadata bytes = decode_fields metadata_body bytes no_metadata

pub data FromRadioType : Type 0 where
  unknown my_info node_info mesh_packet config channel metadata config_complete rebooted :
      FromRadioType

-- `Channel` is never set, and has no field here.
pub record FromRadioPacket : Type 0 where
  pub kind : FromRadioType  -- `Type`
  pub raw : List ℕ
  pub my_info_part : Option MyNodeInfo
  pub node_info_part : Option NodeInfoLite
  pub mesh_packet_part : Option MeshPacketData
  pub config_part : Option ConfigPayload
  pub metadata_part : Option DeviceMetadata

abbrev pub no_part : List ℕ → FromRadioPacket
no_part bytes = record {
  kind = unknown;
  raw = bytes;
  my_info_part = none;
  node_info_part = none;
  mesh_packet_part = none;
  config_part = none;
  metadata_part = none;
}

pub set_kind : ℕ → FromRadioPacket → FromRadioPacket
set_kind field pkt =
    if field == 7
    then record pkt { kind = config_complete }
    else if field == 8
    then record pkt { kind = rebooted }
    else pkt

pub set_part : ℕ → List ℕ → FromRadioPacket → Flow FromRadioPacket
unfolding decode_mesh_packet decode_my_info decode_node_info decode_config decode_metadata
set_part field sub pkt =
    if field == 2
    then (do
      p ← call (decode_mesh_packet sub)
      go (record pkt { kind = mesh_packet; mesh_packet_part = some p }))
    else if field == 3
    then (do
      p ← call (decode_my_info sub)
      go (record pkt { kind = my_info; my_info_part = some p }))
    else if field == 4
    then (do
      p ← call (decode_node_info sub)
      go (record pkt { kind = node_info; node_info_part = some p }))
    else if field == 5
    then (do p ← call (decode_config sub); go (record pkt { kind = config; config_part = some p }))
    else if field == 9
    then go (record pkt { kind = config; config_part = some (no_config sub) })
    else if field == 10
    then go (record pkt { kind = channel })
    else if field == 13
    then (do
      p ← call (decode_metadata sub)
      go (record pkt { kind = metadata; metadata_part = some p }))
    else go pkt

pub from_radio_body : List ℕ → ℕ → FromRadioPacket → Flow (FromRadioPacket × ℕ)
unfolding read_tag read_varint read_bytes skip_bytes set_kind set_part
from_radio_body bytes pos pkt = do
  (field, wire, pos') ← read_tag bytes pos
  if wire == 0
      then (do
        (_, end) ← read_varint (some (truncated_varint field)) bytes pos'
        go (set_kind field pkt, end))
      else if wire == 2
      then (do
        (sub, end) ←
            read_bytes (some (truncated_length field)) (some (truncated_payload field)) bytes pos'
        pkt' ← set_part field sub pkt
        go (pkt', end))
      else if wire == 5
      then (do end ← skip_bytes 4 (some (truncated_fixed32 field)) bytes pos'; go (pkt, end))
      else if wire == 1
      then (do end ← skip_bytes 8 (some (truncated_fixed64 field)) bytes pos'; go (pkt, end))
      else exit (some (unknown_wire_type wire field))

-- `none` is the nil packet of an empty frame.
unfoldable pub with_packet : Outcome FromRadioPacket → Outcome (Option FromRadioPacket)
with_packet (returned pkt e) = returned (some pkt) e
with_packet panicked = panicked
with_packet running = running

unfoldable pub decode_from_radio : List ℕ → Outcome (Option FromRadioPacket)
unfolding decode_fields from_radio_body with_packet
decode_from_radio [] = returned none (some empty_frame)
decode_from_radio (b ∷ bs) = with_packet (decode_fields from_radio_body (b ∷ bs) (no_part (b ∷ bs)))
