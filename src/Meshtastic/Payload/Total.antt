-- ===== src/Meshtastic/Payload/Total.antt =====
-- The payload decoders return on every payload with small lengths.
use diginode_cc.Prelude.{
  ℕ, ◌≤◌, ◌≡◌, refl, some, Bool-cases, inl, inr, ◌==◌, ==_iff, List, take, drop, length,
  if◌then◌else◌,
}
use diginode_cc.Serial.Field.{varint_field, message_field, fixed32_field, skipped_field}
use diginode_cc.Serial.Field.Total.{
  SmallLengths, SmallBehind, SmallLengths-behind, tagged-IsSafe, varint_field-Holds,
  message_field-Holds, fixed32_field-Holds, skipped_field-Holds,
}
use diginode_cc.Serial.Field.Slices.{SmallLengths-slice, Fits-slice}
use diginode_cc.Serial.Wire.{Flow, go, ◌>>=◌, call}
use diginode_cc.Serial.Wire.Chunks.{Fits}
use diginode_cc.Serial.Wire.Total.{
  Holds, Holds-call, Forward, Returns, IsSafe, decode_fields-Returns,
}
use diginode_cc.Serial.Node.{PositionData, DeviceMetrics, no_position, no_metrics}
use diginode_cc.Meshtastic.Payload.{
  EnvironmentMetrics, Telemetry, no_environment, no_telemetry, set_position, set_position_fixed,
  position_body, decode_position_payload, set_device, set_device_fixed, device_body,
  decode_device_metrics_payload, set_environment, environment_body,
  decode_environment_metrics_payload, set_telemetry, telemetry_body, decode_telemetry_payload,
}

module _ (bytes : List ℕ) (fits : Fits bytes) (small : SmallLengths bytes) where
  position_dispatch : List ℕ → ℕ → ℕ → ℕ → PositionData → Flow (PositionData × ℕ)
  position_dispatch b field wire pos s =
      if wire == 5
      then fixed32_field set_position_fixed b field pos s
      else if wire == 0
      then varint_field set_position b field pos s
      else skipped_field b wire pos s

  position_dispatch-Holds :
      (field wire pos : ℕ) (s : PositionData)
      → pos ≤ length bytes
      → SmallBehind bytes fits wire pos
      → Holds (Forward pos) (position_dispatch bytes field wire pos s)
  unfolding position_dispatch
  position_dispatch-Holds field wire pos s h behind = elim (Bool-cases (wire == 5)) [
    | inl e ↦ rw e (fixed32_field-Holds bytes fits set_position_fixed field pos s h)
    | inr e ↦ elim (Bool-cases (wire == 0)) [
      | inl f ↦ rw (e, f) (varint_field-Holds bytes fits set_position field pos s h)
      | inr f ↦ rw (e, f) (skipped_field-Holds bytes fits wire pos s h behind)
    ]
  ]

  position_body-IsSafe : IsSafe position_body bytes
  unfolding position_body position_dispatch
  position_body-IsSafe =
      tagged-IsSafe bytes fits (SmallBehind bytes fits) position_body position_dispatch
        (SmallLengths-behind bytes fits small) (λ _ _. refl) position_dispatch-Holds

  pub decode_position_payload-Returns : Returns (decode_position_payload bytes)
  unfolding decode_position_payload
  decode_position_payload-Returns =
      decode_fields-Returns position_body bytes fits position_body-IsSafe no_position

  device_dispatch : List ℕ → ℕ → ℕ → ℕ → DeviceMetrics → Flow (DeviceMetrics × ℕ)
  device_dispatch b field wire pos s =
      if wire == 0
      then varint_field set_device b field pos s
      else if wire == 5
      then fixed32_field set_device_fixed b field pos s
      else skipped_field b wire pos s

  device_dispatch-Holds :
      (field wire pos : ℕ) (s : DeviceMetrics)
      → pos ≤ length bytes
      → SmallBehind bytes fits wire pos
      → Holds (Forward pos) (device_dispatch bytes field wire pos s)
  unfolding device_dispatch
  device_dispatch-Holds field wire pos s h behind = elim (Bool-cases (wire == 0)) [
    | inl e ↦ rw e (varint_field-Holds bytes fits set_device field pos s h)
    | inr e ↦ elim (Bool-cases (wire == 5)) [
      | inl f ↦ rw (e, f) (fixed32_field-Holds bytes fits set_device_fixed field pos s h)
      | inr f ↦ rw (e, f) (skipped_field-Holds bytes fits wire pos s h behind)
    ]
  ]

  device_body-IsSafe : IsSafe device_body bytes
  unfolding device_body device_dispatch
  device_body-IsSafe =
      tagged-IsSafe bytes fits (SmallBehind bytes fits) device_body device_dispatch
        (SmallLengths-behind bytes fits small) (λ _ _. refl) device_dispatch-Holds

  pub decode_device_metrics_payload-Returns : Returns (decode_device_metrics_payload bytes)
  unfolding decode_device_metrics_payload
  decode_device_metrics_payload-Returns =
      decode_fields-Returns device_body bytes fits device_body-IsSafe no_metrics

  environment_dispatch : List ℕ → ℕ → ℕ → ℕ → EnvironmentMetrics → Flow (EnvironmentMetrics × ℕ)
  environment_dispatch b field wire pos s =
      if wire == 5 then fixed32_field set_environment b field pos s else skipped_field b wire pos s

  environment_dispatch-Holds :
      (field wire pos : ℕ) (s : EnvironmentMetrics)
      → pos ≤ length bytes
      → SmallBehind bytes fits wire pos
      → Holds (Forward pos) (environment_dispatch bytes field wire pos s)
  unfolding environment_dispatch
  environment_dispatch-Holds field wire pos s h behind = elim (Bool-cases (wire == 5)) [
    | inl e ↦ rw e (fixed32_field-Holds bytes fits set_environment field pos s h)
    | inr e ↦ rw e (skipped_field-Holds bytes fits wire pos s h behind)
  ]

  environment_body-IsSafe : IsSafe environment_body bytes
  unfolding environment_body environment_dispatch
  environment_body-IsSafe =
      tagged-IsSafe bytes fits (SmallBehind bytes fits) environment_body environment_dispatch
        (SmallLengths-behind bytes fits small) (λ _ _. refl) environment_dispatch-Holds

  pub decode_environment_metrics_payload-Returns :
      Returns (decode_environment_metrics_payload bytes)
  unfolding decode_environment_metrics_payload
  decode_environment_metrics_payload-Returns =
      decode_fields-Returns environment_body bytes fits environment_body-IsSafe no_environment

set_telemetry_lem :
    (field : ℕ) (sub : List ℕ) (t : Telemetry)
    → set_telemetry field sub t ≡ (
        if field == 2
        then (call (decode_device_metrics_payload sub) >>= λ m. go (record t { device = some m }))
        else if field == 3
        then (call (decode_environment_metrics_payload sub) >>= λ m.
            go (record t { environment = some m }))
        else go t)
unfolding set_telemetry
set_telemetry_lem field sub t = refl

module _ (bytes : List ℕ) (fits : Fits bytes) (small : SmallLengths bytes) where
  telemetry_messages :
      (field : ℕ) (s : Telemetry) (start k : ℕ)
      → Holds (λ s'. Unit {0}) (set_telemetry field (take k (drop start bytes)) s)
  telemetry_messages field s start k =
      let sub = take k (drop start bytes) in
      let fits' = Fits-slice start k bytes fits in
      let small' = SmallLengths-slice start k bytes small in
      rw (set_telemetry_lem field sub s) (elim (Bool-cases (field == 2)) [
        | inl e ↦ rw e (
            Holds-call (decode_device_metrics_payload sub) _
              (decode_device_metrics_payload-Returns sub fits' small'))
        | inr e ↦ elim (Bool-cases (field == 3)) [
          | inl f ↦
              rw (e, f)
                (Holds-call (decode_environment_metrics_payload sub) _
                  (decode_environment_metrics_payload-Returns sub fits' small'))
          | inr f ↦ rw (e, f) tt
        ]
      ])

  telemetry_dispatch : List ℕ → ℕ → ℕ → ℕ → Telemetry → Flow (Telemetry × ℕ)
  telemetry_dispatch b field wire pos s =
      if wire == 2 then message_field set_telemetry b field pos s else skipped_field b wire pos s

  telemetry_dispatch-Holds :
      (field wire pos : ℕ) (s : Telemetry)
      → pos ≤ length bytes
      → SmallBehind bytes fits wire pos
      → Holds (Forward pos) (telemetry_dispatch bytes field wire pos s)
  unfolding telemetry_dispatch
  telemetry_dispatch-Holds field wire pos s h behind = elim (Bool-cases (wire == 2)) [
    | inl e ↦ rw e (
        message_field-Holds bytes fits set_telemetry field pos s h (behind ((==_iff wire 2).0 e))
          (telemetry_messages field s))
    | inr e ↦ rw e (skipped_field-Holds bytes fits wire pos s h behind)
  ]

  telemetry_body-IsSafe : IsSafe telemetry_body bytes
  unfolding telemetry_body telemetry_dispatch
  telemetry_body-IsSafe =
      tagged-IsSafe bytes fits (SmallBehind bytes fits) telemetry_body telemetry_dispatch
        (SmallLengths-behind bytes fits small) (λ _ _. refl) telemetry_dispatch-Holds

  pub decode_telemetry_payload-Returns : Returns (decode_telemetry_payload bytes)
  unfolding decode_telemetry_payload
  decode_telemetry_payload-Returns =
      decode_fields-Returns telemetry_body bytes fits telemetry_body-IsSafe no_telemetry

-- `decodePositionPayload` and `decodeTelemetryPayload` return on every payload of fewer than
-- 2 ^ 62 bytes in which each length-delimited field that can be read, at whatever position, has a
-- length below 2 ^ 62.
pub payloads-Returns :
    (bytes : List ℕ)
    → Fits bytes
    → SmallLengths bytes
    → Returns (decode_position_payload bytes) × Returns (decode_telemetry_payload bytes)
payloads-Returns bytes fits small = (
  decode_position_payload-Returns bytes fits small,
  decode_telemetry_payload-Returns bytes fits small,
)
