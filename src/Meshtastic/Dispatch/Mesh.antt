-- ===== src/Meshtastic/Dispatch/Mesh.antt =====
-- `handleMeshPacket` and `HandlePacket` of internal/meshtastic/dispatcher.go. The decoders of
-- payloads may panic or run forever, and so may these.
use Prim.Native.String.{String}
use diginode_cc.Prelude.{
  is_empty, ℕ, ◌%◌, ◌^◌, Bool, true, false, not, ◌&&◌, ◌||◌, Option, none, some, List, [], ◌∷◌,
  ◌++◌, ltb, ◌==◌, if◌then◌else◌,
}
use diginode_cc.Prelude.Text.{codes}
use diginode_cc.Serial.Wire.{Flow, go, call, ◌>>=◌}
use diginode_cc.Serial.Node.{PositionData}
use diginode_cc.Serial.Packet.{MeshPacketData}
use diginode_cc.Serial.FromRadio.{
  FromRadioPacket, FromRadioType, my_info, node_info, mesh_packet, config, metadata,
}
use diginode_cc.Meshtastic.Payload.{Telemetry, decode_position_payload, decode_telemetry_payload}
use diginode_cc.Meshtastic.SensorText.{
  has_prefix, is_gate_sensor_data, extract_sensor_short_id, is_ah_sensor_output,
}
use diginode_cc.Meshtastic.Dedup.{is_duplicate}
use diginode_cc.Meshtastic.Dispatch.{
  port_text_message, port_position, port_routing, port_admin, port_detection_sensor, port_telemetry,
  Call, device_time, touch_node, classify_node, store_config, observe_inbound_packet,
  handle_text_message, handle_status_request, webhook, process_mesh_text, set_last_message,
  set_sensor_short_id, handle_position, handle_telemetry, handle_environment,
  handle_drone_detection, eval_alert, handle_routing_ack, handle_admin_reply, Wiring, Dispatcher,
  when, deliver_metrics_response, handle_my_info, handle_node_info_packet, handle_metadata,
}

-- The calls for a part of a message that may be missing.
abbrev pub calls_for {ℓ} : {A : Type ℓ} → (A → List Call) → Option A → List Call
calls_for f none = []
calls_for f (some a) = f a

module _ (w : Wiring) where
  -- The type of node that a text message shows its sender to be.
  unfoldable pub node_type : MeshPacketData → String
  unfolding is_gate_sensor_data extract_sensor_short_id is_ah_sensor_output has_prefix
  node_type mp =
      if is_gate_sensor_data w.tools mp.payload
      then "gatesensor"
      else if not (is_empty (extract_sensor_short_id w.tools mp.payload))
          || is_ah_sensor_output w.tools mp.payload
      then "antihunter"
      else if has_prefix (w.long_name mp.from) (codes "GoTailMe")
      then "gotailme"
      else "operator"

  unfoldable pub classify_calls : MeshPacketData → List Call
  unfolding node_type
  classify_calls mp =
      if mp.port_num == port_text_message && not (is_empty mp.payload)
      then classify_node mp.from (node_type mp) ∷ []
      else when (mp.port_num == port_detection_sensor) (classify_node mp.from "antihunter" ∷ [])

  -- The hook, the touch and the classification, in front of the switch on the port.
  unfoldable pub sender_calls : Dispatcher → MeshPacketData → List Call
  unfolding classify_calls
  sender_calls d mp =
      when (w.stranded_hook && not (mp.from == 0) && not (mp.from == d.local_node_num))
        (observe_inbound_packet mp.from (mp.channel % 2 ^ 8) mp.port_num ∷ [])
      ++ when (w.node_handler && not (mp.from == 0))
          (touch_node mp.from mp.rx_snr mp.rx_rssi ∷ classify_calls mp)

  sensor_line_calls : MeshPacketData → List Call
  unfolding is_ah_sensor_output extract_sensor_short_id
  sensor_line_calls mp =
      let short_id = extract_sensor_short_id w.tools mp.payload in
      process_mesh_text mp.from mp.to mp.channel mp.payload
      ∷ when (w.node_handler && is_ah_sensor_output w.tools mp.payload) (
          set_last_message mp.from mp.payload
          ∷ when (not (is_empty short_id)) (set_sensor_short_id mp.from short_id ∷ []))

  unfoldable pub text_calls : MeshPacketData → List Call
  unfolding sensor_line_calls
  text_calls mp = when (not (is_empty mp.payload)) (
      when w.chat_handler (handle_text_message mp.from mp.to mp.channel mp.payload ∷ [])
      ++ (when w.status_request_handler
            (handle_status_request mp.from mp.to mp.channel mp.payload ∷ [])
          ++ (when w.on_webhook_fire (webhook "mesh.text_message" mp.from ∷ [])
              ++ when w.serial_mgr (sensor_line_calls mp))))

  unfoldable pub position_calls : ℕ → PositionData → List Call
  position_calls from pos =
      handle_position from pos
      ∷ (when (ltb 0 pos.time && w.on_device_time) (device_time (some pos.time) ∷ [])
          ++ when w.on_webhook_fire (webhook "mesh.position" from ∷ []))

  unfoldable pub handle_telemetry_parts : ℕ → Telemetry → Dispatcher → Dispatcher × List Call
  unfolding deliver_metrics_response
  handle_telemetry_parts from t d = (
    elim t.device [
      | none ↦ d
      | some dm ↦ if from == d.local_node_num then deliver_metrics_response dm d else d
    ],
    when w.node_handler (
        calls_for (λ dm. handle_telemetry from dm ∷ []) t.device
        ++ calls_for (λ em. handle_environment from em ∷ []) t.environment),
  )

  unfoldable pub detection_calls : MeshPacketData → List Call
  detection_calls mp =
      when w.drone_handler (handle_drone_detection mp.from mp.payload ∷ [])
      ++ (when w.on_alert_eval (eval_alert mp.from ∷ [])
          ++ when w.on_webhook_fire (webhook "mesh.drone_detection" mp.from ∷ []))

  -- The switch on the port.
  unfoldable pub handle_port : MeshPacketData → Dispatcher → Flow (Dispatcher × List Call)
  unfolding text_calls position_calls handle_telemetry_parts detection_calls decode_position_payload
      decode_telemetry_payload
  handle_port mp d =
      if mp.port_num == port_text_message
      then go (d, text_calls mp)
      else if mp.port_num == port_position
      then if w.node_handler && not (is_empty mp.payload)
        then (do
          pos ← call (decode_position_payload mp.payload)
          go (d, position_calls mp.from pos))
        else go (d, [])
      else if mp.port_num == port_telemetry
      then if not (is_empty mp.payload)
        then (do
          t ← call (decode_telemetry_payload mp.payload)
          go (handle_telemetry_parts mp.from t d))
        else go (d, [])
      else if mp.port_num == port_detection_sensor
      then go (d, detection_calls mp)
      else if mp.port_num == port_routing
      then go
          (d, when w.admin_reply_handler (handle_routing_ack mp.from mp.request_id mp.payload ∷ []))
      else if mp.port_num == port_admin
      then go
          (d, when w.admin_reply_handler (handle_admin_reply mp.from mp.request_id mp.payload ∷ []))
      else go (d, [])

  unfoldable pub prepend : List Call → Flow (Dispatcher × List Call) → Flow (Dispatcher × List Call)
  prepend calls r = do (d, more) ← r; go (d, calls ++ more)

  unfoldable pub fresh_packet : MeshPacketData → Dispatcher → Bool → Flow (Dispatcher × List Call)
  unfolding prepend sender_calls handle_port
  fresh_packet mp d true = go (d, [])
  fresh_packet mp d false = prepend (sender_calls d mp) (handle_port mp d)

  unfoldable pub handle_mesh_packet :
      ℕ → MeshPacketData → Dispatcher → Flow (Dispatcher × List Call)
  unfolding is_duplicate fresh_packet
  handle_mesh_packet now mp d =
      let (dedup, dup) = is_duplicate now mp d.dedup in
      fresh_packet mp (record d { dedup = dedup }) dup

  unfoldable pub on_part {ℓ} :
      {A : Type ℓ}
      → Dispatcher
      → (A → Flow (Dispatcher × List Call))
      → Option A
      → Flow (Dispatcher × List Call)
  on_part d f none = go (d, [])
  on_part d f (some a) = f a

  -- The switch of `HandlePacket`.
  unfoldable pub handle_kind :
      FromRadioType → ℕ → FromRadioPacket → Dispatcher → Flow (Dispatcher × List Call)
  unfolding on_part handle_my_info handle_node_info_packet handle_mesh_packet handle_metadata
  handle_kind my_info now pkt d = on_part d (λ info. go (handle_my_info w info d)) pkt.my_info_part
  handle_kind node_info now pkt d =
      on_part d (λ info. go (handle_node_info_packet w info d)) pkt.node_info_part
  handle_kind mesh_packet now pkt d =
      on_part d (λ mp. handle_mesh_packet now mp d) pkt.mesh_packet_part
  handle_kind config now pkt d =
      on_part d (λ cfg. go (d, when w.serial_mgr (store_config cfg ∷ []))) pkt.config_part
  handle_kind metadata now pkt d =
      on_part d (λ meta. go (handle_metadata w meta d)) pkt.metadata_part
  handle_kind _ now pkt d = go (d, [])

  unfoldable pub handle_packet : ℕ → FromRadioPacket → Dispatcher → Flow (Dispatcher × List Call)
  unfolding handle_kind
  handle_packet now pkt d = handle_kind pkt.kind now pkt d
