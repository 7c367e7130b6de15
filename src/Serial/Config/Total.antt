-- ===== src/Serial/Config/Total.antt =====
-- The decoders of the configuration sections return on every input, whatever its bytes.
use diginode_cc.Prelude.{
  ℕ, ◌≤◌, refl, Bool-cases, inl, inr, ◌==◌, List, length, arith, if◌then◌else◌,
}
use diginode_cc.Serial.Field.{varint_field, fixed_field}
use diginode_cc.Serial.Field.Total.{tagged-IsSafe, varint_field-Holds, fixed_field-Holds}
use diginode_cc.Serial.Config.{
  LoraConfig, PowerConfig, set_bluetooth, set_position, set_display, set_lora, set_power,
  no_bluetooth, no_position, no_display, no_lora, no_power, varints_body, lora_body, power_body,
  decode_bluetooth_config, decode_position_config, decode_display_config, decode_lora_config,
  decode_power_config,
}
use diginode_cc.Serial.Wire.{Flow, break}
use diginode_cc.Serial.Wire.Chunks.{Fits}
use diginode_cc.Serial.Wire.Total.{Holds, Forward, Returns, IsSafe, decode_fields-Returns}

module _ {ℓ} {S : Type ℓ} (set : ℕ → ℕ → S → S) (bytes : List ℕ) (fits : Fits bytes) where
  varints_dispatch : List ℕ → ℕ → ℕ → ℕ → S → Flow (S × ℕ)
  varints_dispatch b field wire pos s = if wire == 0 then varint_field set b field pos s else break

  varints_dispatch-Holds :
      (field wire pos : ℕ) (s : S)
      → pos ≤ length bytes
      → Holds (Forward pos) (varints_dispatch bytes field wire pos s)
  unfolding varints_dispatch
  varints_dispatch-Holds field wire pos s h = elim (Bool-cases (wire == 0)) [
    | inl e ↦ rw e (varint_field-Holds bytes fits set field pos s h)
    | inr e ↦ rw e tt
  ]

  varints_body-IsSafe : IsSafe (varints_body set) bytes
  unfolding varints_body varints_dispatch
  varints_body-IsSafe =
      tagged-IsSafe bytes fits (λ _ _. Unit {0}) (varints_body set) varints_dispatch (λ _ _ _. tt)
        (λ _ _. refl) (λ field wire pos s h _. varints_dispatch-Holds field wire pos s h)

module _ (bytes : List ℕ) (fits : Fits bytes) where
  lora_dispatch : List ℕ → ℕ → ℕ → ℕ → LoraConfig → Flow (LoraConfig × ℕ)
  lora_dispatch b field wire pos s =
      if wire == 0
      then varint_field set_lora b field pos s
      else if wire == 5
      then fixed_field 4 b pos s
      else if wire == 1
      then fixed_field 8 b pos s
      else break

  lora_dispatch-Holds :
      (field wire pos : ℕ) (s : LoraConfig)
      → pos ≤ length bytes
      → Holds (Forward pos) (lora_dispatch bytes field wire pos s)
  unfolding lora_dispatch
  lora_dispatch-Holds field wire pos s h = elim (Bool-cases (wire == 0)) [
    | inl e ↦ rw e (varint_field-Holds bytes fits set_lora field pos s h)
    | inr e ↦ elim (Bool-cases (wire == 5)) [
      | inl f ↦ rw (e, f) (fixed_field-Holds bytes fits 4 pos s (omega arith) (omega arith) h)
      | inr f ↦ elim (Bool-cases (wire == 1)) [
        | inl g ↦ rw (e, f, g) (fixed_field-Holds bytes fits 8 pos s (omega arith) (omega arith) h)
        | inr g ↦ rw (e, f, g) tt
      ]
    ]
  ]

  lora_body-IsSafe : IsSafe lora_body bytes
  unfolding lora_body lora_dispatch
  lora_body-IsSafe =
      tagged-IsSafe bytes fits (λ _ _. Unit {0}) lora_body lora_dispatch (λ _ _ _. tt) (λ _ _. refl)
        (λ field wire pos s h _. lora_dispatch-Holds field wire pos s h)

  power_dispatch : List ℕ → ℕ → ℕ → ℕ → PowerConfig → Flow (PowerConfig × ℕ)
  power_dispatch b field wire pos s =
      if wire == 0
      then varint_field set_power b field pos s
      else if wire == 5
      then fixed_field 4 b pos s
      else break

  power_dispatch-Holds :
      (field wire pos : ℕ) (s : PowerConfig)
      → pos ≤ length bytes
      → Holds (Forward pos) (power_dispatch bytes field wire pos s)
  unfolding power_dispatch
  power_dispatch-Holds field wire pos s h = elim (Bool-cases (wire == 0)) [
    | inl e ↦ rw e (varint_field-Holds bytes fits set_power field pos s h)
    | inr e ↦ elim (Bool-cases (wire == 5)) [
      | inl f ↦ rw (e, f) (fixed_field-Holds bytes fits 4 pos s (omega arith) (omega arith) h)
      | inr f ↦ rw (e, f) tt
    ]
  ]

  power_body-IsSafe : IsSafe power_body bytes
  unfolding power_body power_dispatch
  power_body-IsSafe =
      tagged-IsSafe bytes fits (λ _ _. Unit {0}) power_body power_dispatch (λ _ _ _. tt)
        (λ _ _. refl) (λ field wire pos s h _. power_dispatch-Holds field wire pos s h)

  -- The five decoders of configuration sections return on every input of fewer than 2 ^ 62 bytes:
  -- none panics and none loops forever.
  pub config_sections-Returns :
      Returns (decode_bluetooth_config bytes)
      × Returns (decode_position_config bytes)
      × Returns (decode_display_config bytes)
      × Returns (decode_lora_config bytes)
      × Returns (decode_power_config bytes)
  unfolding decode_bluetooth_config decode_position_config decode_display_config decode_lora_config
      decode_power_config
  config_sections-Returns = (
    decode_fields-Returns (varints_body set_bluetooth) bytes fits
        (varints_body-IsSafe set_bluetooth bytes fits) no_bluetooth,
    decode_fields-Returns (varints_body set_position) bytes fits
        (varints_body-IsSafe set_position bytes fits) no_position,
    decode_fields-Returns (varints_body set_display) bytes fits
        (varints_body-IsSafe set_display bytes fits) no_display,
    decode_fields-Returns lora_body bytes fits lora_body-IsSafe no_lora,
    decode_fields-Returns power_body bytes fits power_body-IsSafe no_power,
  )
