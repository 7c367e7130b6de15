-- ===== src/Meshtastic/Dispatch/Runs.antt =====
-- Runs of the dispatcher of internal/meshtastic, and the theorems on them.
use diginode_cc.Prelude.{
  ℕ, zero, suc, ◌-◌, ◌^◌, ◌≡◌, ◌↔◌, refl, true, false, none, some, List, [], ◌∷◌, ◌++◌, arith,
}
use diginode_cc.Prelude.Text.{codes}
use diginode_cc.Serial.Varint.{encode_varint}
use diginode_cc.Serial.Encode.{encode_tag}
use diginode_cc.Serial.Varint.{decode_varint}
use diginode_cc.Serial.Field.Total.{SmallLengths}
use diginode_cc.Serial.Wire.{Flow, go, hang}
use diginode_cc.Serial.Node.{MyNodeInfo, no_my_info}
use diginode_cc.Serial.Packet.{MeshPacketData, no_packet}
use diginode_cc.Serial.FromRadio.{
  DeviceMetadata, no_metadata, FromRadioPacket, no_part, mesh_packet, metadata,
}
use diginode_cc.Meshtastic.SensorText.{TextTools}
use diginode_cc.Meshtastic.Dedup.{is_duplicate}
use diginode_cc.Meshtastic.Dedup.Unpruned.{see_all, see_all_unpruned, see_all-unpruned}
use diginode_cc.Meshtastic.Dedup.Window.{is_duplicate_iff}
use diginode_cc.Meshtastic.Dispatch.{
  Call, Wiring, Dispatcher, new_dispatcher, handle_my_info, handle_metadata, set_firmware_version,
  handle_text_message, touch_node, classify_node,
}
use diginode_cc.Meshtastic.Dispatch.Mesh.{handle_mesh_packet}
use diginode_cc.Meshtastic.Dispatch.Local.{
  IsPinned, handle_packets, handle_packets-IsPinned, last_call, handle_metadata_my_info,
}
use diginode_cc.Meshtastic.Dispatch.Drop.{IfEnds, handle_mesh_packet-again}
use diginode_cc.Meshtastic.Dispatch.Returns.{Goes, handle_mesh_packet-Goes, handle_mesh_packet-hang}

-- Upper case as it stands, and no match of a regular expression.
abbrev plain : TextTools
plain = record { to_upper = λ text. text; find_short_id = λ text. none; find_type = λ text. none }

abbrev wiring : Wiring
wiring = record {
  node_handler = true;
  drone_handler = false;
  chat_handler = true;
  status_request_handler = false;
  admin_reply_handler = false;
  stranded_hook = false;
  on_device_time = false;
  on_alert_eval = false;
  on_webhook_fire = false;
  serial_mgr = false;
  long_name = λ n. [];
  tools = plain;
}

abbrev hello : MeshPacketData
hello = record no_packet { from = 8; to = 9; id = 77; port_num = 1; payload = codes "DRONE: 5" }

abbrev hello_calls : Flow (Dispatcher × List Call) → List Call
hello_calls (go (d, calls)) = calls
hello_calls _ = []

hello_dispatched :
    hello_calls (handle_mesh_packet wiring 100 hello new_dispatcher)
    ≡ touch_node 8 0 0
      ∷ classify_node 8 "antihunter"
      ∷ handle_text_message 8 9 0 (codes "DRONE: 5")
      ∷ []
unfolding handle_mesh_packet new_dispatcher
hello_dispatched = refl

see_all-unpruned_example :
    see_all ((5, 10) ∷ (5, 20) ∷ (6, 20) ∷ []) []
    ≡ see_all_unpruned ((5, 10) ∷ (5, 20) ∷ (6, 20) ∷ []) []
see_all-unpruned_example =
    see_all-unpruned ((5, 10) ∷ (5, 20) ∷ (6, 20) ∷ [])
      (omega arith, (omega arith, (omega arith, tt)))

is_duplicate_iff_example :
    ((is_duplicate 200 hello (is_duplicate 100 hello []).0).1 ≡ true)
    ↔ ((hello.from ≡ hello.from) × (hello.id ≡ hello.id))
unfolding is_duplicate
is_duplicate_iff_example =
    is_duplicate_iff 100 200 hello hello [] tt (omega arith, omega arith) (omega arith, omega arith)
      refl refl (omega arith) (omega arith)

handle_mesh_packet-again_example :
    IfEnds
      (λ r. handle_mesh_packet wiring 200 hello r.0 ≡ go (r.0, []))
      (handle_mesh_packet wiring 100 hello new_dispatcher)
unfolding is_duplicate new_dispatcher
handle_mesh_packet-again_example =
    handle_mesh_packet-again wiring 100 200 hello new_dispatcher tt refl (omega arith) (omega arith)

-- Device metrics with a battery level of 87.
abbrev battery_payload : List ℕ
battery_payload = 0x12 ∷ 0x02 ∷ 0x08 ∷ 87 ∷ []

abbrev battery : MeshPacketData
battery = record no_packet { from = 8; id = 78; port_num = 67; payload = battery_payload }

battery_payload-SmallLengths : SmallLengths battery_payload
unfolding decode_varint
battery_payload-SmallLengths zero h = omega arith
battery_payload-SmallLengths (suc zero) h = omega arith
battery_payload-SmallLengths (suc (suc zero)) h = omega arith
battery_payload-SmallLengths (suc (suc (suc zero))) h = omega arith
battery_payload-SmallLengths (suc (suc (suc (suc zero)))) h = omega arith
battery_payload-SmallLengths (suc (suc (suc (suc (suc n))))) h = absurd (omega arith)

handle_mesh_packet-Goes_example : Goes (handle_mesh_packet wiring 100 battery new_dispatcher)
handle_mesh_packet-Goes_example =
    handle_mesh_packet-Goes wiring 100 battery new_dispatcher (omega arith)
      battery_payload-SmallLengths

abbrev hostile : MeshPacketData
hostile = record battery {
  port_num = 3;
  payload = encode_tag 1 2 ++ (encode_varint (2 ^ 64 - 11) ++ []);
}

handle_mesh_packet-hang_example : handle_mesh_packet wiring 100 hostile new_dispatcher ≡ hang
unfolding encode_tag encode_varint is_duplicate new_dispatcher
handle_mesh_packet-hang_example =
    handle_mesh_packet-hang wiring 100 1 (2 ^ 64 - 11) [] hostile new_dispatcher refl refl refl
      (omega arith, omega arith, refl) (omega arith) refl

abbrev packets : List (ℕ × FromRadioPacket)
packets =
    (100, record (no_part []) { kind = mesh_packet; mesh_packet_part = some hello })
    ∷ (200, record (no_part []) { kind = metadata; metadata_part = some no_metadata })
    ∷ []

abbrev known : Dispatcher
known = record new_dispatcher { local_node_seen = true; local_node_num = 4 }

handle_packets-IsPinned_example : IfEnds (λ r. IsPinned 4 r.0) (handle_packets wiring packets known)
handle_packets-IsPinned_example =
    handle_packets-IsPinned wiring 4 packets known (refl, (refl, tt)) (refl, refl)

abbrev our_info : MyNodeInfo
our_info = record no_my_info { my_node_num = 4 }

abbrev our_metadata : DeviceMetadata
our_metadata = record no_metadata { firmware_version = codes "2.5" }

handle_metadata_my_info_example :
    let (d1, calls1) = handle_my_info wiring our_info new_dispatcher in
    let (d2, calls2) = handle_metadata wiring our_metadata d1 in
    let (e1, calls3) = handle_metadata wiring our_metadata new_dispatcher in
    let (e2, calls4) = handle_my_info wiring our_info e1 in
    let report = set_firmware_version our_info.my_node_num our_metadata.firmware_version in
    (d2 ≡ e2) × (last_call calls2 ≡ some report) × (last_call calls4 ≡ some report)
handle_metadata_my_info_example =
    handle_metadata_my_info wiring our_info our_metadata new_dispatcher refl (omega arith) refl
