-- ===== src/Serial/Node/RoundTrip.antt =====
-- `decodePosition` and `decodeDeviceMetrics` on the payloads that `BuildPosition` and
-- `BuildDeviceMetrics` (internal/serial/encode.go) write.
use diginode_cc.Prelude.{
  ℕ, ◌≤◌, ◌≡◌, refl, not, none, List, [], ◌++◌, append-nil, length, length-append, arith, ◌==◌, ltb,
  if◌then◌else◌, Bool-cases, inl, inr,
}
use diginode_cc.Serial.Varint.{IsU64, IsU32, u32}
use diginode_cc.Serial.Encode.{
  encode_varint_field, encode_fixed32_field, encode_sfixed32_field, encode_float32_field,
  extend_int32, position_fields, metrics_fields, is_positive_float,
}
use diginode_cc.Serial.Encode.Laws.{
  length-encode_varint_field, length-encode_fixed32_field, varint_chunk, fixed32_chunk,
}
use diginode_cc.Serial.Field.{varint_field, fixed32_field}
use diginode_cc.Serial.Field.Chunks.{Dispatches}
use diginode_cc.Serial.Node.{
  PositionData, no_position, set_position, set_position_fixed, position_body, decode_position,
  DeviceMetrics, no_metrics, set_metrics, set_metrics_fixed, metrics_body, decode_device_metrics,
}
use diginode_cc.Serial.Wire.{returned, decode_fields}
use diginode_cc.Serial.Wire.Chunks.{Chunks, end, decode_fields-Chunks}

-- The sign extension of an int32, cut to 32 bits again.
pub u32-extend_int32 : (x : ℕ) → IsU32 x → (u32 (extend_int32 x) ≡ x) × IsU64 (extend_int32 x)
unfolding extend_int32
u32-extend_int32 x h = ground arith

position_body-varint : (field : ℕ) → Dispatches position_body field 0 (varint_field set_position)
unfolding position_body
position_body-varint field bytes pos pos' s e = rw e

position_body-fixed32 :
    (field : ℕ) → Dispatches position_body field 5 (fixed32_field set_position_fixed)
unfolding position_body
position_body-fixed32 field bytes pos pos' s e = rw e

decode_position_lem :
    (bytes : List ℕ) → decode_position bytes ≡ decode_fields position_body bytes no_position
unfolding decode_position
decode_position_lem bytes = refl

altitude_field : ℕ → List ℕ
altitude_field altitude =
    if not (altitude == 0) then encode_varint_field 3 (extend_int32 altitude) else []

position_fields_lem :
    (lat lon altitude : ℕ)
    → position_fields lat lon altitude
      ≡ encode_fixed32_field 1 lat ++ (encode_fixed32_field 2 lon ++ altitude_field altitude)
unfolding position_fields altitude_field encode_sfixed32_field
position_fields_lem lat lon altitude = refl

abbrev pub position_of : ℕ → ℕ → ℕ → PositionData
position_of lat lon altitude = record no_position {
  latitude_i = lat;
  longitude_i = lon;
  altitude = altitude;
}

altitude-Chunks :
    (lat lon altitude : ℕ)
    → IsU32 altitude
    → Chunks position_body
        (position_of lat lon 0)
        (altitude_field altitude)
        (position_of lat lon altitude)
unfolding altitude_field set_position
altitude-Chunks lat lon altitude h = elim (Bool-cases (altitude == 0)) [
  | inl zero_now ↦ let e : altitude ≡ 0 = ground arith in rw zero_now (rw e end)
  | inr some_now ↦
      let (cut, word) = u32-extend_int32 altitude h in
      let f = encode_varint_field 3 (extend_int32 altitude) in
      rw (some_now, ← append-nil f)
        (rw cut at (
          varint_chunk position_body set_position 3 (extend_int32 altitude)
            {s = position_of lat lon 0} (omega arith) word (position_body-varint 3) end))
]

length-altitude_field : (altitude : ℕ) → IsU32 altitude → length (altitude_field altitude) ≤ 20
unfolding altitude_field
length-altitude_field altitude h = ground (
  arith,
  length-encode_varint_field 3 (extend_int32 altitude) (omega arith)
      (u32-extend_int32 altitude h).1,
)

-- `decodePosition` reads back the latitude, the longitude and the altitude of a position payload,
-- as signed 32-bit numbers: an altitude below zero is written as a 64-bit varint and cut again, and
-- one of zero is not written.
pub decode_position-position_fields :
    (lat lon altitude : ℕ)
    → IsU32 lat
    → IsU32 lon
    → IsU32 altitude
    → decode_position (position_fields lat lon altitude)
      ≡ returned (position_of lat lon altitude) none
unfolding set_position_fixed
decode_position-position_fields lat lon altitude hlat hlon halt =
    let f1 = encode_fixed32_field 1 lat in
    let f2 = encode_fixed32_field 2 lon in
    let f3 = altitude_field altitude in
    rw (decode_position_lem, position_fields_lem)
      (decode_fields-Chunks position_body
        (fixed32_chunk position_body set_position_fixed 1 lat (omega arith) hlat
          (position_body-fixed32 1)
          (fixed32_chunk position_body set_position_fixed 2 lon (omega arith) hlon
            (position_body-fixed32 2) (altitude-Chunks lat lon altitude halt)))
        (omega (
          arith,
          length-append f1 (f2 ++ f3),
          length-append f2 f3,
          length-encode_fixed32_field 1 lat (omega arith),
          length-encode_fixed32_field 2 lon (omega arith),
          length-altitude_field altitude halt,
        )))

metrics_body-varint : (field : ℕ) → Dispatches metrics_body field 0 (varint_field set_metrics)
unfolding metrics_body
metrics_body-varint field bytes pos pos' s e = rw e

metrics_body-fixed32 :
    (field : ℕ) → Dispatches metrics_body field 5 (fixed32_field set_metrics_fixed)
unfolding metrics_body
metrics_body-fixed32 field bytes pos pos' s e = rw e

decode_device_metrics_lem :
    (bytes : List ℕ) → decode_device_metrics bytes ≡ decode_fields metrics_body bytes no_metrics
unfolding decode_device_metrics
decode_device_metrics_lem bytes = refl

battery_field : ℕ → List ℕ
battery_field battery = if ltb 0 battery then encode_varint_field 1 battery else []

voltage_field : ℕ → List ℕ
voltage_field voltage = if is_positive_float voltage then encode_fixed32_field 2 voltage else []

metrics_fields_lem :
    (battery voltage : ℕ)
    → metrics_fields battery voltage ≡ battery_field battery ++ voltage_field voltage
unfolding metrics_fields battery_field voltage_field encode_float32_field
metrics_fields_lem battery voltage = refl

abbrev pub metrics_of : ℕ → ℕ → DeviceMetrics
metrics_of battery voltage = record no_metrics { battery_level = battery; voltage = voltage }

abbrev pub positive_or_zero : ℕ → ℕ
positive_or_zero voltage = if is_positive_float voltage then voltage else 0

voltage-Chunks :
    (battery voltage : ℕ)
    → IsU32 voltage
    → Chunks metrics_body
        (metrics_of battery 0)
        (voltage_field voltage)
        (metrics_of battery (positive_or_zero voltage))
unfolding voltage_field set_metrics_fixed
voltage-Chunks battery voltage h = elim (Bool-cases (is_positive_float voltage)) [
  | inl positive ↦
      rw (positive, ← append-nil (encode_fixed32_field 2 voltage))
        (fixed32_chunk metrics_body set_metrics_fixed 2 voltage {s = metrics_of battery 0}
          (omega arith) h (metrics_body-fixed32 2) end)
  | inr other ↦ rw other end
]

battery-Chunks :
    (battery : ℕ) {xs : List ℕ} {t : DeviceMetrics}
    → IsU32 battery
    → Chunks metrics_body (metrics_of battery 0) xs t
    → Chunks metrics_body no_metrics (battery_field battery ++ xs) t
unfolding battery_field set_metrics
battery-Chunks battery h rest = elim (Bool-cases (ltb 0 battery)) [
  | inl some_now ↦
      let e : u32 battery ≡ battery = omega arith in
      rw some_now (
        varint_chunk metrics_body set_metrics 1 battery (omega arith) (omega arith)
          (metrics_body-varint 1) (rw e rest))
  | inr none_now ↦ let e : battery ≡ 0 = ground arith in rw none_now (rw e at rest)
]

length-metrics_parts :
    (battery voltage : ℕ)
    → IsU32 battery
    → length (battery_field battery ++ voltage_field voltage) ≤ 34
unfolding battery_field voltage_field
length-metrics_parts battery voltage h = ground (
  arith,
  length-append (battery_field battery) (voltage_field voltage),
  length-encode_varint_field 1 battery (omega arith) (omega arith),
  length-encode_fixed32_field 2 voltage (omega arith),
)

pub length-metrics_fields :
    (battery voltage : ℕ) → IsU32 battery → length (metrics_fields battery voltage) ≤ 34
length-metrics_fields battery voltage h =
    rw metrics_fields_lem (length-metrics_parts battery voltage h)

-- `decodeDeviceMetrics` reads back the battery level, and the voltage if it is a positive float
-- (NaN is not); any other voltage is not written and is read as zero.
pub decode_device_metrics-metrics_fields :
    (battery voltage : ℕ)
    → IsU32 battery
    → IsU32 voltage
    → decode_device_metrics (metrics_fields battery voltage)
      ≡ returned (metrics_of battery (positive_or_zero voltage)) none
decode_device_metrics-metrics_fields battery voltage hb hv =
    rw (decode_device_metrics_lem, metrics_fields_lem)
      (decode_fields-Chunks metrics_body
        (battery-Chunks battery hb (voltage-Chunks battery voltage hv))
        (omega (arith, length-metrics_parts battery voltage hb)))
