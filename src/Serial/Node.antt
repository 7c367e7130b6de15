-- ===== src/Serial/Node.antt =====
-- The messages about a node (internal/serial/framing.go): `decodeMyInfo`, `decodeUserInfo`,
-- `decodePosition`, `decodeDeviceMetrics` and `decodeNodeInfo`. A float32 is its bit pattern, and
-- an int32 likewise; a string is the list of its bytes.
pub mod RoundTrip
pub mod Total
pub mod Endless
use diginode_cc.Prelude.{
  ℕ, Bool, false, Option, none, some, List, [], ◌∷◌, ◌++◌, length, ◌==◌, if◌then◌else◌,
}
use diginode_cc.Prelude.Text.{codes, print_hex}
use diginode_cc.Serial.Names.{hw_model_name, role_name}
use diginode_cc.Serial.Varint.{u32}
use diginode_cc.Serial.Field.{
  is_set, varint_field, bytes_field, message_field, fixed32_field, skipped_field,
}
use diginode_cc.Serial.Wire.{
  Flow, go, exit, panic, hang, Outcome, call, ◌>>=◌, read_tag, decode_fields,
}

pub record MyNodeInfo : Type 0 where
  pub my_node_num : ℕ
  pub reboot_count : ℕ
  pub min_app_version : ℕ
  pub max_channels : ℕ

pub record UserInfo : Type 0 where
  pub id : List ℕ
  pub long_name : List ℕ
  pub short_name : List ℕ
  pub mac_addr : List ℕ
  pub hw_model : List ℕ
  pub role : List ℕ
  pub is_licensed : Bool

pub record PositionData : Type 0 where
  pub latitude_i : ℕ  -- int32
  pub longitude_i : ℕ  -- int32
  pub altitude : ℕ  -- int32
  pub time : ℕ
  pub sats : ℕ

pub record DeviceMetrics : Type 0 where
  pub battery_level : ℕ
  pub voltage : ℕ  -- float32
  pub channel_utilization : ℕ  -- float32
  pub air_util_tx : ℕ  -- float32
  pub uptime_seconds : ℕ

pub record NodeInfoLite : Type 0 where
  pub num : ℕ
  pub user : Option UserInfo
  pub position : Option PositionData
  pub snr : ℕ  -- float32
  pub last_heard : ℕ
  pub device_metrics : Option DeviceMetrics
  pub channel : ℕ
  pub is_favorite : Bool

abbrev pub no_my_info : MyNodeInfo
no_my_info = record { my_node_num = 0; reboot_count = 0; min_app_version = 0; max_channels = 0 }

abbrev pub no_user : UserInfo
no_user = record {
  id = [];
  long_name = [];
  short_name = [];
  mac_addr = [];
  hw_model = [];
  role = [];
  is_licensed = false;
}

abbrev pub no_position : PositionData
no_position = record { latitude_i = 0; longitude_i = 0; altitude = 0; time = 0; sats = 0 }

abbrev pub no_metrics : DeviceMetrics
no_metrics = record {
  battery_level = 0;
  voltage = 0;
  channel_utilization = 0;
  air_util_tx = 0;
  uptime_seconds = 0;
}

abbrev pub no_node_info : NodeInfoLite
no_node_info = record {
  num = 0;
  user = none;
  position = none;
  snr = 0;
  last_heard = 0;
  device_metrics = none;
  channel = 0;
  is_favorite = false;
}

pub set_my_info : ℕ → ℕ → MyNodeInfo → MyNodeInfo
set_my_info field val info =
    if field == 1
    then record info { my_node_num = u32 val }
    else if field == 8
    then record info { reboot_count = u32 val }
    else if field == 11
    then record info { max_channels = u32 val }
    else info

pub my_info_body : List ℕ → ℕ → MyNodeInfo → Flow (MyNodeInfo × ℕ)
unfolding read_tag varint_field skipped_field set_my_info
my_info_body bytes pos info = do
  (field, wire, pos') ← read_tag bytes pos
  if wire == 0
      then varint_field set_my_info bytes field pos' info
      else skipped_field bytes wire pos' info

unfoldable pub decode_my_info : List ℕ → Outcome MyNodeInfo
unfolding decode_fields my_info_body
decode_my_info bytes = decode_fields my_info_body bytes no_my_info

-- `fmt.Sprintf("%02X:%02X:%02X:%02X:%02X:%02X", ...)`
pub print_mac : List ℕ → List ℕ
unfolding print_hex
print_mac [] = []
print_mac (b ∷ []) = print_hex b
print_mac (b ∷ c ∷ bs) = print_hex b ++ (b':' ∷ print_mac (c ∷ bs))

pub set_user_bytes : ℕ → List ℕ → UserInfo → UserInfo
unfolding print_mac
set_user_bytes field raw user =
    if field == 1
    then record user { id = raw }
    else if field == 2
    then record user { long_name = raw }
    else if field == 3
    then record user { short_name = raw }
    else if field == 4
    then (if length raw == 6 then record user { mac_addr = print_mac raw } else user)
    else user

pub set_user : ℕ → ℕ → UserInfo → UserInfo
unfolding hw_model_name role_name
set_user field val user =
    if field == 5
    then record user { hw_model = hw_model_name val }
    else if field == 6
    then record user { is_licensed = is_set val }
    else if field == 7
    then record user { role = role_name val }
    else user

pub user_body : List ℕ → ℕ → UserInfo → Flow (UserInfo × ℕ)
unfolding read_tag varint_field bytes_field skipped_field set_user_bytes set_user
user_body bytes pos user = do
  (field, wire, pos') ← read_tag bytes pos
  if wire == 2
      then bytes_field set_user_bytes bytes field pos' user
      else if wire == 0
      then varint_field set_user bytes field pos' user
      else skipped_field bytes wire pos' user

unfoldable pub decode_user_info : List ℕ → Outcome UserInfo
unfolding decode_fields user_body
decode_user_info bytes = decode_fields user_body bytes no_user

pub set_position_fixed : ℕ → ℕ → PositionData → PositionData
set_position_fixed field val p =
    if field == 1
    then record p { latitude_i = val }
    else if field == 2
    then record p { longitude_i = val }
    else p

pub set_position : ℕ → ℕ → PositionData → PositionData
set_position field val p =
    if field == 3
    then record p { altitude = u32 val }
    else if field == 4
    then record p { time = u32 val }
    else if field == 21
    then record p { sats = u32 val }
    else p

pub position_body : List ℕ → ℕ → PositionData → Flow (PositionData × ℕ)
unfolding read_tag varint_field fixed32_field skipped_field set_position_fixed set_position
position_body bytes pos p = do
  (field, wire, pos') ← read_tag bytes pos
  if wire == 5
      then fixed32_field set_position_fixed bytes field pos' p
      else if wire == 0
      then varint_field set_position bytes field pos' p
      else skipped_field bytes wire pos' p

unfoldable pub decode_position : List ℕ → Outcome PositionData
unfolding decode_fields position_body
decode_position bytes = decode_fields position_body bytes no_position

pub set_metrics : ℕ → ℕ → DeviceMetrics → DeviceMetrics
set_metrics field val dm =
    if field == 1
    then record dm { battery_level = u32 val }
    else if field == 5
    then record dm { uptime_seconds = u32 val }
    else dm

pub set_metrics_fixed : ℕ → ℕ → DeviceMetrics → DeviceMetrics
set_metrics_fixed field val dm =
    if field == 2
    then record dm { voltage = val }
    else if field == 3
    then record dm { channel_utilization = val }
    else if field == 4
    then record dm { air_util_tx = val }
    else dm

pub metrics_body : List ℕ → ℕ → DeviceMetrics → Flow (DeviceMetrics × ℕ)
unfolding read_tag varint_field fixed32_field skipped_field set_metrics set_metrics_fixed
metrics_body bytes pos dm = do
  (field, wire, pos') ← read_tag bytes pos
  if wire == 0
      then varint_field set_metrics bytes field pos' dm
      else if wire == 5
      then fixed32_field set_metrics_fixed bytes field pos' dm
      else skipped_field bytes wire pos' dm

unfoldable pub decode_device_metrics : List ℕ → Outcome DeviceMetrics
unfolding decode_fields metrics_body
decode_device_metrics bytes = decode_fields metrics_body bytes no_metrics

pub set_node : ℕ → ℕ → NodeInfoLite → NodeInfoLite
set_node field val info =
    if field == 1
    then record info { num = u32 val }
    else if field == 7
    then record info { channel = u32 val }
    else if field == 10
    then record info { is_favorite = is_set val }
    else info

pub set_node_message : ℕ → List ℕ → NodeInfoLite → Flow NodeInfoLite
unfolding decode_user_info decode_position decode_device_metrics
set_node_message field sub info =
    if field == 2
    then (do u ← call (decode_user_info sub); go (record info { user = some u }))
    else if field == 3
    then (do p ← call (decode_position sub); go (record info { position = some p }))
    else if field == 6
    then (do m ← call (decode_device_metrics sub); go (record info { device_metrics = some m }))
    else go info

pub set_node_fixed : ℕ → ℕ → NodeInfoLite → NodeInfoLite
set_node_fixed field val info =
    if field == 1
    then record info { num = val }
    else if field == 4
    then record info { snr = val }
    else if field == 5
    then record info { last_heard = val }
    else info

pub node_body : List ℕ → ℕ → NodeInfoLite → Flow (NodeInfoLite × ℕ)
unfolding read_tag varint_field message_field fixed32_field skipped_field set_node set_node_message
    set_node_fixed
node_body bytes pos info = do
  (field, wire, pos') ← read_tag bytes pos
  if wire == 0
      then varint_field set_node bytes field pos' info
      else if wire == 2
      then message_field set_node_message bytes field pos' info
      else if wire == 5
      then fixed32_field set_node_fixed bytes field pos' info
      else skipped_field bytes wire pos' info

unfoldable pub decode_node_info : List ℕ → Outcome NodeInfoLite
unfolding decode_fields node_body
decode_node_info bytes = decode_fields node_body bytes no_node_info
