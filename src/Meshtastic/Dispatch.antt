-- ===== src/Meshtastic/Dispatch.antt =====
-- The dispatcher of internal/meshtastic/dispatcher.go: `HandlePacket` and `handleMeshPacket`. What
-- it calls of its handlers is a list of calls, in order; a handler, a hook or a callback that is not
-- set is a `false` in `Wiring`. The clock of the filter is an argument.
pub mod Mesh
pub mod Local
pub mod Drop
pub mod Returns
pub mod Metrics
mod Runs
use Prim.Native.String.{String}
use diginode_cc.Prelude.{
  is_empty, ℕ, ◌%◌, Bool, true, false, not, ◌&&◌, ◌||◌, Option, none, some, List, [], ◌∷◌, ◌++◌,
  ltb, ◌==◌, if◌then◌else◌,
}
use diginode_cc.Prelude.Text.{codes}
use diginode_cc.Serial.Wire.{Flow, go, call, ◌>>=◌}
use diginode_cc.Serial.Node.{MyNodeInfo, NodeInfoLite, PositionData, DeviceMetrics}
use diginode_cc.Serial.Config.{ConfigPayload}
use diginode_cc.Serial.Packet.{MeshPacketData}
use diginode_cc.Serial.FromRadio.{
  DeviceMetadata, FromRadioPacket, FromRadioType, my_info, node_info, mesh_packet, config, metadata,
}
use diginode_cc.Meshtastic.Payload.{
  EnvironmentMetrics, Telemetry, decode_position_payload, decode_telemetry_payload,
}
use diginode_cc.Meshtastic.SensorText.{
  TextTools, has_prefix, is_gate_sensor_data, extract_sensor_short_id, is_ah_sensor_output,
}
use diginode_cc.Meshtastic.Dedup.{Seen, is_duplicate}

-- The port numbers that are told apart (internal/meshtastic/portnums.go).
abbrev pub port_text_message : ℕ
port_text_message = 1

abbrev pub port_position : ℕ
port_position = 3

abbrev pub port_routing : ℕ
port_routing = 5

abbrev pub port_admin : ℕ
port_admin = 6

abbrev pub port_detection_sensor : ℕ
port_detection_sensor = 10

abbrev pub port_telemetry : ℕ
port_telemetry = 67

-- What the dispatcher calls. A device time of `none` is the time of the clock; the data of a webhook
-- is left out but for the sender.
pub data Call : Type 0 where
  device_time : Option ℕ → Call
  touch_node : ℕ → ℕ → ℕ → Call
  classify_node : ℕ → String → Call
  mark_local : ℕ → Call
  set_firmware_version : ℕ → List ℕ → Call
  handle_node_info : NodeInfoLite → Call
  store_config : ConfigPayload → Call
  observe_inbound_packet : ℕ → ℕ → ℕ → Call
  handle_text_message : ℕ → ℕ → ℕ → List ℕ → Call
  handle_status_request : ℕ → ℕ → ℕ → List ℕ → Call
  webhook : String → ℕ → Call
  process_mesh_text : ℕ → ℕ → ℕ → List ℕ → Call
  set_last_message : ℕ → List ℕ → Call
  set_sensor_short_id : ℕ → List ℕ → Call
  handle_position : ℕ → PositionData → Call
  handle_telemetry : ℕ → DeviceMetrics → Call
  handle_environment : ℕ → EnvironmentMetrics → Call
  handle_drone_detection : ℕ → List ℕ → Call
  eval_alert : ℕ → Call
  handle_routing_ack : ℕ → ℕ → List ℕ → Call
  handle_admin_reply : ℕ → ℕ → List ℕ → Call

-- Which handlers, hooks and callbacks are set, and what `GetLongName` returns.
pub record Wiring : Type 0 where
  pub node_handler : Bool
  pub drone_handler : Bool
  pub chat_handler : Bool
  pub status_request_handler : Bool
  pub admin_reply_handler : Bool
  pub stranded_hook : Bool
  pub on_device_time : Bool
  pub on_alert_eval : Bool
  pub on_webhook_fire : Bool
  pub serial_mgr : Bool
  pub long_name : ℕ → List ℕ
  pub tools : TextTools

-- `metrics_req` is the one-slot channel of a request for device metrics that is in flight.
pub record Dispatcher : Type 0 where
  pub dedup : Seen
  pub local_node_seen : Bool
  pub local_node_num : ℕ
  pub pending_firmware : List ℕ
  pub metrics_req : Option (Option DeviceMetrics)

unfoldable pub new_dispatcher : Dispatcher
new_dispatcher = record {
  dedup = [];
  local_node_seen = false;
  local_node_num = 0;
  pending_firmware = [];
  metrics_req = none;
}

abbrev pub when : Bool → List Call → List Call
when b calls = if b then calls else []

-- `deliverMetricsResponse`
delivered : DeviceMetrics → Option (Option DeviceMetrics) → Option (Option DeviceMetrics)
delivered dm none = none
delivered dm (some none) = some (some dm)
delivered dm (some (some old)) = some (some old)

unfoldable pub deliver_metrics_response : DeviceMetrics → Dispatcher → Dispatcher
unfolding delivered
deliver_metrics_response dm d = record d { metrics_req = delivered dm d.metrics_req }

module _ (w : Wiring) where
  -- `MarkLocal`, and the firmware that is pending.
  abbrev pub mark_calls : ℕ → List ℕ → List Call
  mark_calls num firmware =
      mark_local num ∷ when (not (is_empty firmware)) (set_firmware_version num firmware ∷ [])

  unfoldable pub handle_my_info : MyNodeInfo → Dispatcher → Dispatcher × List Call
  handle_my_info info d =
      let known = not (info.my_node_num == 0) in
      (
        if known then record d { local_node_seen = true; local_node_num = info.my_node_num } else d,
        when w.on_device_time (device_time none ∷ [])
            ++ when (w.node_handler && known) (
                touch_node info.my_node_num 0 0
                ∷ classify_node info.my_node_num "gotailme"
                ∷ mark_calls info.my_node_num d.pending_firmware),
      )

  unfoldable pub handle_node_info_packet : NodeInfoLite → Dispatcher → Dispatcher × List Call
  handle_node_info_packet info d =
      if not w.node_handler
      then (d, [])
      else if not d.local_node_seen && not (info.num == 0)
      then (
        record d { local_node_seen = true; local_node_num = info.num },
        handle_node_info info ∷ mark_calls info.num d.pending_firmware,
      )
      else if info.num == d.local_node_num && not (d.local_node_num == 0)
      then (d, handle_node_info info ∷ mark_calls info.num d.pending_firmware)
      else (d, handle_node_info info ∷ [])

  unfoldable pub handle_metadata : DeviceMetadata → Dispatcher → Dispatcher × List Call
  handle_metadata meta d = if is_empty meta.firmware_version then (d, []) else (
    record d { pending_firmware = meta.firmware_version },
    when (w.node_handler && d.local_node_seen && not (d.local_node_num == 0))
        (set_firmware_version d.local_node_num meta.firmware_version ∷ []),
  )
