-- ===== src/Serial/Encode.antt =====
-- The packet builders of internal/serial/encode.go, and `BuildWantConfig` of framing.go. An int32
-- and a float32 are their bit patterns; the four bytes that `rand.Read` gives are an argument.
pub mod Laws
use diginode_cc.Prelude.{
  ℕ, ◌+◌, ◌-◌, ◌*◌, ◌%◌, ◌^◌, bit_or, Bool, not, ◌&&◌, List, [], ◌∷◌, ◌++◌, length, ltb, leb, ◌==◌,
  if◌then◌else◌,
}
use diginode_cc.Serial.Varint.{u64_mod, u32_mod, encode_varint, encode_fixed32, decode_fixed32}

abbrev pub port_text_message : ℕ
port_text_message = 1

abbrev pub port_position : ℕ
port_position = 3

abbrev pub port_node_info : ℕ
port_node_info = 4

abbrev pub port_admin : ℕ
port_admin = 6

abbrev pub port_telemetry : ℕ
port_telemetry = 67

abbrev pub broadcast_addr : ℕ
broadcast_addr = 0xFFFFFFFF

-- `(fieldNum << 3) | wireType`, encoded.
unfoldable pub encode_tag : ℕ → ℕ → List ℕ
unfolding encode_varint
encode_tag field wire = encode_varint (bit_or (field * 2 ^ 3 % u64_mod) wire)

unfoldable pub encode_length_delimited : ℕ → List ℕ → List ℕ
unfolding encode_tag encode_varint
encode_length_delimited field bytes = encode_tag field 2 ++ (encode_varint (length bytes) ++ bytes)

unfoldable pub encode_varint_field : ℕ → ℕ → List ℕ
unfolding encode_tag encode_varint
encode_varint_field field val = encode_tag field 0 ++ encode_varint val

unfoldable pub encode_fixed32_field : ℕ → ℕ → List ℕ
unfolding encode_tag encode_fixed32
encode_fixed32_field field val = encode_tag field 5 ++ encode_fixed32 val

-- `encodeSFixed32Field` and `encodeFloat32Field`: the signed word or float is its bit pattern.
unfoldable pub encode_sfixed32_field : ℕ → ℕ → List ℕ
unfolding encode_fixed32_field
encode_sfixed32_field field val = encode_fixed32_field field val

unfoldable pub encode_float32_field : ℕ → ℕ → List ℕ
unfolding encode_fixed32_field
encode_float32_field field val = encode_fixed32_field field val

-- `uint64(x)` of an int32: the sign is extended.
unfoldable pub extend_int32 : ℕ → ℕ
extend_int32 x = if leb (2 ^ 31) x then x + (u64_mod - u32_mod) else x

-- `voltage > 0` of a float32: the sign bit is clear, and it is neither zero nor a NaN.
unfoldable pub is_positive_float : ℕ → Bool
is_positive_float x = ltb 0 x && leb x 0x7F800000

unfoldable pub build_data_message : ℕ → List ℕ → List ℕ
unfolding encode_varint_field encode_length_delimited
build_data_message port payload = encode_varint_field 1 port ++ encode_length_delimited 2 payload

unfoldable pub build_data_message_with_response : ℕ → List ℕ → List ℕ
unfolding encode_varint_field encode_length_delimited
build_data_message_with_response port payload =
    encode_varint_field 1 port ++ (encode_length_delimited 2 payload ++ encode_varint_field 3 1)

-- `b` is what `rand.Read` gave.
unfoldable pub random_packet_id : List ℕ → ℕ
unfolding decode_fixed32
random_packet_id b = let id = decode_fixed32 b in if id == 0 then 1 else id

unfoldable pub build_mesh_packet : List ℕ → ℕ → List ℕ → List ℕ
unfolding encode_varint_field encode_length_delimited encode_fixed32_field random_packet_id
build_mesh_packet b to payload =
    encode_fixed32_field 2 to
    ++ (encode_varint_field 3 0
        ++ (encode_length_delimited 4 payload
            ++ (encode_fixed32_field 6 (random_packet_id b)
                ++ (encode_varint_field 10 3 ++ encode_varint_field 11 1))))

unfoldable pub build_to_radio : List ℕ → List ℕ
unfolding encode_length_delimited
build_to_radio mesh_packet = encode_length_delimited 1 mesh_packet

unfoldable pub build_want_config : List ℕ
unfolding encode_varint
build_want_config = encode_varint (bit_or (3 * 2 ^ 3) 0) ++ encode_varint 1

unfoldable pub build_heartbeat : List ℕ
unfolding encode_length_delimited
build_heartbeat = encode_length_delimited 7 []

-- The fields that `BuildPosition` and `BuildAdminSetFixedPosition` share.
unfoldable pub position_fields : ℕ → ℕ → ℕ → List ℕ
unfolding encode_sfixed32_field encode_varint_field extend_int32
position_fields lat lon altitude =
    encode_sfixed32_field 1 lat
    ++ (encode_sfixed32_field 2 lon
        ++ (if not (altitude == 0) then encode_varint_field 3 (extend_int32 altitude) else []))

-- The `DeviceMetrics` of `BuildDeviceMetrics`.
unfoldable pub metrics_fields : ℕ → ℕ → List ℕ
unfolding encode_varint_field encode_float32_field is_positive_float
metrics_fields battery voltage =
    (if ltb 0 battery then encode_varint_field 1 battery else [])
    ++ (if is_positive_float voltage then encode_float32_field 2 voltage else [])

-- The `BluetoothConfig` of `BuildAdminBluetoothConfig`.
unfoldable pub bluetooth_fields : Bool → ℕ → ℕ → List ℕ
unfolding encode_varint_field
bluetooth_fields enabled mode fixed_pin =
    encode_varint_field 1 (if enabled then 1 else 0)
    ++ (encode_varint_field 2 mode
        ++ (if ltb 0 fixed_pin then encode_varint_field 3 fixed_pin else []))

module _ (b : List ℕ) where
  -- A `Data` message to an address, as a `ToRadio`.
  send : ℕ → List ℕ → List ℕ
  unfolding build_mesh_packet build_to_radio
  send to message = build_to_radio (build_mesh_packet b to message)

  unfoldable pub build_text_message : ℕ → List ℕ → List ℕ
  unfolding send build_data_message
  build_text_message to text = send to (build_data_message port_text_message text)

  unfoldable pub build_position : ℕ → ℕ → ℕ → List ℕ
  unfolding send build_data_message position_fields
  build_position lat lon altitude =
      send broadcast_addr (build_data_message port_position (position_fields lat lon altitude))

  unfoldable pub build_device_metrics : ℕ → ℕ → List ℕ
  unfolding send build_data_message metrics_fields encode_length_delimited
  build_device_metrics battery voltage = send broadcast_addr (
      build_data_message port_telemetry
        (encode_length_delimited 2 (metrics_fields battery voltage)))

  -- An `AdminMessage` to a node.
  send_admin : ℕ → List ℕ → List ℕ
  unfolding send build_data_message
  send_admin node_num admin = send node_num (build_data_message port_admin admin)

  unfoldable pub build_admin_shutdown : ℕ → ℕ → List ℕ
  unfolding send_admin encode_varint_field
  build_admin_shutdown node_num seconds = send_admin node_num (encode_varint_field 98 seconds)

  unfoldable pub build_admin_display_config : ℕ → ℕ → List ℕ
  unfolding send_admin encode_varint_field encode_length_delimited
  build_admin_display_config node_num screen_on_secs =
      let config = encode_length_delimited 5 (encode_varint_field 1 screen_on_secs) in
      send_admin node_num (encode_length_delimited 34 config)

  unfoldable pub build_admin_bluetooth_config : ℕ → Bool → ℕ → ℕ → List ℕ
  unfolding send_admin bluetooth_fields encode_length_delimited
  build_admin_bluetooth_config node_num enabled mode fixed_pin =
      let config = encode_length_delimited 7 (bluetooth_fields enabled mode fixed_pin) in
      send_admin node_num (encode_length_delimited 34 config)

  unfoldable pub build_admin_position_config : ℕ → ℕ → List ℕ
  unfolding send_admin encode_varint_field encode_length_delimited
  build_admin_position_config node_num gps_mode =
      let config = encode_length_delimited 2 (encode_varint_field 13 gps_mode) in
      send_admin node_num (encode_length_delimited 34 config)

  unfoldable pub build_admin_nodedb_reset : ℕ → List ℕ
  unfolding send_admin encode_varint_field
  build_admin_nodedb_reset node_num = send_admin node_num (encode_varint_field 100 1)

  unfoldable pub build_admin_set_fixed_position : ℕ → ℕ → ℕ → ℕ → ℕ → List ℕ
  unfolding send_admin position_fields encode_fixed32_field encode_length_delimited
  build_admin_set_fixed_position node_num lat lon altitude timestamp =
      let pos =
        position_fields lat lon altitude
        ++ (if not (timestamp == 0) then encode_fixed32_field 7 timestamp else []) in
      send_admin node_num (encode_length_delimited 41 pos)

  unfoldable pub build_admin_reboot : ℕ → ℕ → List ℕ
  unfolding send_admin encode_varint_field
  build_admin_reboot node_num seconds = send_admin node_num (encode_varint_field 97 seconds)

  unfoldable pub build_telemetry_request : ℕ → List ℕ
  unfolding send build_data_message_with_response
  build_telemetry_request node_num =
      send node_num (build_data_message_with_response port_telemetry [])

  unfoldable pub build_node_info_request : ℕ → List ℕ
  unfolding send build_data_message_with_response
  build_node_info_request node_num =
      let to = if node_num == 0 then broadcast_addr else node_num in
      send to (build_data_message_with_response port_node_info [])
