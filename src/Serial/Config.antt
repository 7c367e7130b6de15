-- ===== src/Serial/Config.antt =====
-- `decodeConfig` and the decoders of its sections (internal/serial/framing.go).
pub mod Total
pub mod RoundTrip
pub mod Sections
pub mod Message
use diginode_cc.Prelude.{
  ℕ, ◌+◌, ◌*◌, ◌/◌, ◌%◌, Bool, false, not, Option, none, some, List, [], ◌∷◌, ◌++◌, ◌==◌,
  if◌then◌else◌,
}
use diginode_cc.Prelude.Text.{codes, print_nat}
use diginode_cc.Serial.Varint.{u32}
use diginode_cc.Serial.Field.{is_set, varint_field, fixed_field}
use diginode_cc.Serial.Wire.{
  Flow, go, exit, panic, hang, Outcome, break, call, ◌>>=◌, read_tag, read_varint, read_bytes,
  skip_bytes, decode_fields,
}

pub record BluetoothConfig : Type 0 where
  pub enabled : Bool
  pub mode : ℕ
  pub fixed_pin : ℕ

pub record PositionConfig : Type 0 where
  pub gps_mode : ℕ
  pub gps_enabled : Bool
  pub position_broadcast_secs : ℕ
  pub gps_update_interval : ℕ
  pub fixed_position : Bool

pub record DisplayConfig : Type 0 where
  pub screen_on_secs : ℕ
  pub flip_screen : Bool

pub record LoraConfig : Type 0 where
  pub region : ℕ
  pub use_preset : Bool
  pub hop_limit : ℕ
  pub tx_enabled : Bool
  pub tx_power : ℕ  -- int32

pub record PowerConfig : Type 0 where
  pub is_power_saving : Bool
  pub device_battery_ina_addr : ℕ

abbrev pub no_bluetooth : BluetoothConfig
no_bluetooth = record { enabled = false; mode = 0; fixed_pin = 0 }

abbrev pub no_position : PositionConfig
no_position = record {
  gps_mode = 0;
  gps_enabled = false;
  position_broadcast_secs = 0;
  gps_update_interval = 0;
  fixed_position = false;
}

abbrev pub no_display : DisplayConfig
no_display = record { screen_on_secs = 0; flip_screen = false }

abbrev pub no_lora : LoraConfig
no_lora = record { region = 0; use_preset = false; hop_limit = 0; tx_enabled = false; tx_power = 0 }

abbrev pub no_power : PowerConfig
no_power = record { is_power_saving = false; device_battery_ina_addr = 0 }

-- The `switch fieldNum` of each decoder.
pub set_bluetooth : ℕ → ℕ → BluetoothConfig → BluetoothConfig
set_bluetooth field val bt =
    if field == 1
    then record bt { enabled = is_set val }
    else if field == 2
    then record bt { mode = u32 val }
    else if field == 3
    then record bt { fixed_pin = u32 val }
    else bt

pub set_position : ℕ → ℕ → PositionConfig → PositionConfig
set_position field val pc =
    if field == 1
    then record pc { position_broadcast_secs = u32 val }
    else if field == 3
    then record pc { fixed_position = is_set val }
    else if field == 4
    then record pc { gps_enabled = is_set val }
    else if field == 5
    then record pc { gps_update_interval = u32 val }
    else if field == 13
    then record pc { gps_mode = u32 val }
    else pc

pub set_display : ℕ → ℕ → DisplayConfig → DisplayConfig
set_display field val dc =
    if field == 1
    then record dc { screen_on_secs = u32 val }
    else if field == 5
    then record dc { flip_screen = is_set val }
    else dc

pub set_lora : ℕ → ℕ → LoraConfig → LoraConfig
set_lora field val lc =
    if field == 1
    then record lc { use_preset = is_set val }
    else if field == 7
    then record lc { region = u32 val }
    else if field == 8
    then record lc { hop_limit = u32 val }
    else if field == 9
    then record lc { tx_enabled = is_set val }
    else if field == 10
    then record lc { tx_power = u32 val }
    else lc

pub set_power : ℕ → ℕ → PowerConfig → PowerConfig
set_power field val pc =
    if field == 1
    then record pc { is_power_saving = is_set val }
    else if field == 9
    then record pc { device_battery_ina_addr = u32 val }
    else pc

-- The bodies of the loops: `bluetooth`, `position` and `display` read varints and no more.
pub varints_body {ℓ} : {S : Type ℓ} → (ℕ → ℕ → S → S) → List ℕ → ℕ → S → Flow (S × ℕ)
unfolding read_tag varint_field
varints_body set bytes pos s = do
  (field, wire, pos') ← read_tag bytes pos
  if wire == 0 then varint_field set bytes field pos' s else break

unfoldable pub decode_bluetooth_config : List ℕ → Outcome BluetoothConfig
unfolding decode_fields varints_body set_bluetooth
decode_bluetooth_config bytes = decode_fields (varints_body set_bluetooth) bytes no_bluetooth

unfoldable pub decode_position_config : List ℕ → Outcome PositionConfig
unfolding decode_fields varints_body set_position
decode_position_config bytes = decode_fields (varints_body set_position) bytes no_position

unfoldable pub decode_display_config : List ℕ → Outcome DisplayConfig
unfolding decode_fields varints_body set_display
decode_display_config bytes = decode_fields (varints_body set_display) bytes no_display

pub lora_body : List ℕ → ℕ → LoraConfig → Flow (LoraConfig × ℕ)
unfolding read_tag varint_field fixed_field set_lora
lora_body bytes pos lc = do
  (field, wire, pos') ← read_tag bytes pos
  if wire == 0
      then varint_field set_lora bytes field pos' lc
      else if wire == 5
      then fixed_field 4 bytes pos' lc
      else if wire == 1
      then fixed_field 8 bytes pos' lc
      else break

unfoldable pub decode_lora_config : List ℕ → Outcome LoraConfig
unfolding decode_fields lora_body
decode_lora_config bytes = decode_fields lora_body bytes no_lora

pub power_body : List ℕ → ℕ → PowerConfig → Flow (PowerConfig × ℕ)
unfolding read_tag varint_field fixed_field set_power
power_body bytes pos pc = do
  (field, wire, pos') ← read_tag bytes pos
  if wire == 0
      then varint_field set_power bytes field pos' pc
      else if wire == 5
      then fixed_field 4 bytes pos' pc
      else break

unfoldable pub decode_power_config : List ℕ → Outcome PowerConfig
unfolding decode_fields power_body
decode_power_config bytes = decode_fields power_body bytes no_power

pub record ConfigPayload : Type 0 where
  pub section : List ℕ
  pub raw : List ℕ
  pub bluetooth : Option BluetoothConfig
  pub position : Option PositionConfig
  pub display : Option DisplayConfig
  pub lora : Option LoraConfig
  pub power : Option PowerConfig

abbrev pub no_config : List ℕ → ConfigPayload
no_config bytes = record {
  section = [];
  raw = bytes;
  bluetooth = none;
  position = none;
  display = none;
  lora = none;
  power = none;
}

-- The section of a sub-message, by its field number.
pub set_section : ℕ → List ℕ → ConfigPayload → Flow ConfigPayload
unfolding decode_position_config decode_power_config decode_display_config decode_lora_config
    decode_bluetooth_config print_nat
set_section field sub cfg =
    if field == 2
    then (do
      c ← call (decode_position_config sub)
      go (record cfg { section = codes "position"; position = some c }))
    else if field == 3
    then (do
      c ← call (decode_power_config sub)
      go (record cfg { section = codes "power"; power = some c }))
    else if field == 5
    then (do
      c ← call (decode_display_config sub)
      go (record cfg { section = codes "display"; display = some c }))
    else if field == 6
    then (do
      c ← call (decode_lora_config sub)
      go (record cfg { section = codes "lora"; lora = some c }))
    else if field == 7
    then (do
      c ← call (decode_bluetooth_config sub)
      go (record cfg { section = codes "bluetooth"; bluetooth = some c }))
    else go (record cfg { section = codes "unknown_" ++ print_nat field })

pub config_body : List ℕ → ℕ → ConfigPayload → Flow (ConfigPayload × ℕ)
unfolding read_tag read_bytes read_varint set_section
config_body bytes pos cfg = do
  (field, wire, pos') ← read_tag bytes pos
  if wire == 2
      then (do
        (sub, end) ← read_bytes none none bytes pos'
        cfg' ← set_section field sub cfg
        go (cfg', end))
      else if wire == 0
      then (do (_, end) ← read_varint none bytes pos'; go (cfg, end))
      else break

unfoldable pub decode_config : List ℕ → Outcome ConfigPayload
unfolding decode_fields config_body
decode_config bytes = decode_fields config_body bytes (no_config bytes)
