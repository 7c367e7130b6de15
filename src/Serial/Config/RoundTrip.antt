-- ===== src/Serial/Config/RoundTrip.antt =====
-- `decodeConfig` on the configuration that `BuildAdminBluetoothConfig` (internal/serial/encode.go)
-- writes, and on one section in general.
use diginode_cc.Prelude.{
  ℕ, ◌≤◌, ◌<◌, ◌^◌, ◌≡◌, refl, ◌∙◌, Bool, true, false, none, some, List, [], ◌++◌, append-nil,
  length, length-append, arith, ltb, if◌then◌else◌, Bool-cases, inl, inr,
}
use diginode_cc.Prelude.Text.{codes}
use diginode_cc.Serial.Varint.{IsU64, IsU32, u32}
use diginode_cc.Serial.Encode.{encode_varint_field, encode_length_delimited, bluetooth_fields}
use diginode_cc.Serial.Encode.Laws.{
  length-encode_varint_field, length-encode_length_delimited, varint_chunk, delimited_chunk,
}
use diginode_cc.Serial.Field.{varint_field, message_field, is_set}
use diginode_cc.Serial.Field.Chunks.{Dispatches, message_field-Handles}
use diginode_cc.Serial.Config.{
  BluetoothConfig, no_bluetooth, set_bluetooth, decode_bluetooth_config, varints_body,
  ConfigPayload, no_config, set_section, config_body, decode_config,
}
use diginode_cc.Serial.Wire.{go, call, ◌>>=◌, returned, decode_fields}
use diginode_cc.Serial.Wire.Chunks.{Fits, Chunks, end, decode_fields-Chunks}

pub varints_body-varint {ℓ} :
    {S : Type ℓ} (set : ℕ → ℕ → S → S) (field : ℕ)
    → Dispatches (varints_body set) field 0 (varint_field set)
unfolding varints_body
varints_body-varint set field bytes pos pos' s e = rw e

config_body-message : (field : ℕ) → Dispatches config_body field 2 (message_field set_section)
unfolding config_body message_field
config_body-message field bytes pos pos' s e = rw e

decode_config_lem :
    (bytes : List ℕ) → decode_config bytes ≡ decode_fields config_body bytes (no_config bytes)
unfolding decode_config
decode_config_lem bytes = refl

-- A configuration with one section.
pub one_section :
    (field : ℕ) (sub : List ℕ) (cfg : ConfigPayload)
    → field < 2 ^ 61
    → length sub < 2 ^ 60
    → set_section field sub (no_config (encode_length_delimited field sub)) ≡ go cfg
    → decode_config (encode_length_delimited field sub) ≡ returned cfg none
one_section field sub cfg hf hs e =
    let bytes = encode_length_delimited field sub in
    let fits : Fits bytes =
      omega (arith, length-encode_length_delimited field sub hf (omega arith)) in
    let whole : Chunks config_body (no_config bytes) (bytes ++ []) cfg =
      delimited_chunk config_body (message_field set_section) field sub hf
        (config_body-message field)
        (message_field-Handles set_section field sub (no_config bytes) cfg e) end in
    decode_config_lem bytes ∙ decode_fields-Chunks config_body (rw (append-nil bytes) at whole) fits

abbrev pub bluetooth_of : Bool → ℕ → ℕ → BluetoothConfig
bluetooth_of enabled mode fixed_pin = record {
  enabled = enabled;
  mode = mode;
  fixed_pin = fixed_pin;
}

pin_field : ℕ → List ℕ
pin_field pin = if ltb 0 pin then encode_varint_field 3 pin else []

enabled_value : Bool → ℕ
enabled_value enabled = if enabled then 1 else 0

bluetooth_fields_lem :
    (enabled : Bool) (mode pin : ℕ)
    → bluetooth_fields enabled mode pin
      ≡ encode_varint_field 1 (enabled_value enabled)
        ++ (encode_varint_field 2 mode ++ pin_field pin)
unfolding bluetooth_fields pin_field enabled_value
bluetooth_fields_lem enabled mode pin = refl

is_set-enabled :
    (enabled : Bool) → (is_set (enabled_value enabled) ≡ enabled) × IsU64 (enabled_value enabled)
unfolding enabled_value
is_set-enabled true = (refl, omega arith)
is_set-enabled false = (refl, omega arith)

pin-Chunks :
    (enabled : Bool) (mode pin : ℕ)
    → IsU32 pin
    → Chunks
        (varints_body set_bluetooth)
        (bluetooth_of enabled mode 0)
        (pin_field pin)
        (bluetooth_of enabled mode pin)
unfolding pin_field set_bluetooth
pin-Chunks enabled mode pin h = elim (Bool-cases (ltb 0 pin)) [
  | inl some_now ↦
      let e : u32 pin ≡ pin = omega arith in
      rw (some_now, ← append-nil (encode_varint_field 3 pin))
        (varint_chunk (varints_body set_bluetooth) set_bluetooth 3 pin (omega arith) (omega arith)
          (varints_body-varint set_bluetooth 3) (rw e end))
  | inr none_now ↦ let e : pin ≡ 0 = ground arith in rw none_now (rw e end)
]

length-bluetooth_fields :
    (enabled : Bool) (mode pin : ℕ)
    → IsU32 mode
    → IsU32 pin
    → length (bluetooth_fields enabled mode pin) ≤ 60
unfolding pin_field
length-bluetooth_fields enabled mode pin hm hp =
    let e = enabled_value enabled in
    rw (bluetooth_fields_lem enabled mode pin) (
      ground (
        arith,
        length-append (encode_varint_field 1 e) (encode_varint_field 2 mode ++ pin_field pin),
        length-append (encode_varint_field 2 mode) (pin_field pin),
        length-encode_varint_field 1 e (omega arith) (is_set-enabled enabled).1,
        length-encode_varint_field 2 mode (omega arith) (omega arith),
        length-encode_varint_field 3 pin (omega arith) (omega arith),
      ))

decode_bluetooth_config_lem :
    (bytes : List ℕ)
    → decode_bluetooth_config bytes ≡ decode_fields (varints_body set_bluetooth) bytes no_bluetooth
unfolding decode_bluetooth_config
decode_bluetooth_config_lem bytes = refl

decode_bluetooth_config-fields :
    (enabled : Bool) (mode pin : ℕ)
    → IsU32 mode
    → IsU32 pin
    → decode_bluetooth_config (bluetooth_fields enabled mode pin)
      ≡ returned (bluetooth_of enabled mode pin) none
unfolding set_bluetooth
decode_bluetooth_config-fields enabled mode pin hm hp =
    let body = varints_body set_bluetooth in
    let on = is_set-enabled enabled in
    let e : u32 mode ≡ mode = omega arith in
    let chunks : Chunks body no_bluetooth (bluetooth_fields enabled mode pin)
        (bluetooth_of enabled mode pin) =
      rw (bluetooth_fields_lem enabled mode pin) (
        varint_chunk body set_bluetooth 1 (enabled_value enabled) (omega arith) on.1
          (varints_body-varint set_bluetooth 1)
          (varint_chunk body set_bluetooth 2 mode (omega arith) (omega arith)
            (varints_body-varint set_bluetooth 2)
            (rw (on.0, e) (pin-Chunks enabled mode pin hp)))) in
    decode_bluetooth_config_lem _
    ∙ decode_fields-Chunks body chunks
        (omega (arith, length-bluetooth_fields enabled mode pin hm hp))

set_section-bluetooth :
    (sub : List ℕ) (cfg : ConfigPayload) (c : BluetoothConfig)
    → decode_bluetooth_config sub ≡ returned c none
    → set_section 7 sub cfg ≡ go (record cfg { section = codes "bluetooth"; bluetooth = some c })
set_section-bluetooth sub cfg c e = shut ∙ rw e
  where
    shut : set_section 7 sub cfg ≡ (
        call (decode_bluetooth_config sub) >>= λ c.
        go (record cfg { section = codes "bluetooth"; bluetooth = some c }))
    shut = unfold set_section in refl

-- The `Config` that `BuildAdminBluetoothConfig` sends is decoded to the section "bluetooth" with
-- the mode, the pin and the switch that it was given, and to nothing else.
pub decode_config-bluetooth :
    (enabled : Bool) (mode pin : ℕ)
    → IsU32 mode
    → IsU32 pin
    → let bytes = encode_length_delimited 7 (bluetooth_fields enabled mode pin) in
      decode_config bytes
      ≡ returned
          (record (no_config bytes) {
            section = codes "bluetooth";
            bluetooth = some (bluetooth_of enabled mode pin);
          })
          none
decode_config-bluetooth enabled mode pin hm hp =
    one_section 7 (bluetooth_fields enabled mode pin) _ (omega arith)
      (omega (arith, length-bluetooth_fields enabled mode pin hm hp))
      (set_section-bluetooth _ _ _ (decode_bluetooth_config-fields enabled mode pin hm hp))
