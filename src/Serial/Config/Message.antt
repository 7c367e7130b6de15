-- ===== src/Serial/Config/Message.antt =====
-- `decodeConfig` returns on every input with small lengths.
use diginode_cc.Prelude.{
  ℕ, ◌≤◌, ◌≡◌, refl, none, some, Bool-cases, inl, inr, ◌==◌, ==_iff, List, length, arith,
  if◌then◌else◌,
}
use diginode_cc.Serial.Field.{message_field}
use diginode_cc.Serial.Field.Total.{
  SmallLengths, SmallBehind, SmallLengths-behind, tagged-IsSafe, message_field-Holds,
}
use diginode_cc.Serial.Field.Slices.{Fits-slice}
use diginode_cc.Serial.Wire.{Flow, go, ◌>>=◌, break, call, read_varint}
use diginode_cc.Serial.Wire.Chunks.{Fits}
use diginode_cc.Serial.Wire.Total.{
  Holds, Holds-bind, Holds-call, Forward, Returns, IsSafe, decode_fields-Returns,
}
use diginode_cc.Serial.Wire.Readers.{IsVarintAt, read_varint-Holds}
use diginode_cc.Serial.Config.{
  ConfigPayload, no_config, set_section, config_body, decode_config, decode_position_config,
  decode_power_config, decode_display_config, decode_lora_config, decode_bluetooth_config,
}
use diginode_cc.Serial.Config.Total.{config_sections-Returns}
use diginode_cc.Prelude.{◌++◌}
use diginode_cc.Prelude.Text.{codes, print_nat}

set_section_lem :
    (field : ℕ) (sub : List ℕ) (cfg : ConfigPayload)
    → set_section field sub cfg ≡ (
        if field == 2
        then (call (decode_position_config sub) >>= λ c.
            go (record cfg { section = codes "position"; position = some c }))
        else if field == 3
        then (call (decode_power_config sub) >>= λ c.
            go (record cfg { section = codes "power"; power = some c }))
        else if field == 5
        then (call (decode_display_config sub) >>= λ c.
            go (record cfg { section = codes "display"; display = some c }))
        else if field == 6
        then (call (decode_lora_config sub) >>= λ c.
            go (record cfg { section = codes "lora"; lora = some c }))
        else if field == 7
        then (call (decode_bluetooth_config sub) >>= λ c.
            go (record cfg { section = codes "bluetooth"; bluetooth = some c }))
        else go (record cfg { section = codes "unknown_" ++ print_nat field }))
unfolding set_section
set_section_lem field sub cfg = refl

set_section-Holds :
    (field : ℕ) (sub : List ℕ) (cfg : ConfigPayload)
    → Fits sub
    → Holds (λ s. Unit {0}) (set_section field sub cfg)
set_section-Holds field sub cfg fits =
    let all = config_sections-Returns sub fits in
    rw (set_section_lem field sub cfg) (elim (Bool-cases (field == 2)) [
      | inl e ↦ rw e (Holds-call (decode_position_config sub) _ all.1)
      | inr e ↦ elim (Bool-cases (field == 3)) [
        | inl f ↦ rw (e, f) (Holds-call (decode_power_config sub) _ all.4)
        | inr f ↦ elim (Bool-cases (field == 5)) [
          | inl g ↦ rw (e, f, g) (Holds-call (decode_display_config sub) _ all.2)
          | inr g ↦ elim (Bool-cases (field == 6)) [
            | inl h ↦ rw (e, f, g, h) (Holds-call (decode_lora_config sub) _ all.3)
            | inr h ↦ elim (Bool-cases (field == 7)) [
              | inl k ↦ rw (e, f, g, h, k) (Holds-call (decode_bluetooth_config sub) _ all.0)
              | inr k ↦ rw (e, f, g, h, k) tt
            ]
          ]
        ]
      ]
    ])

module _ (bytes : List ℕ) (fits : Fits bytes) (small : SmallLengths bytes) where
  pass_varint :
      (pos : ℕ) (s : ConfigPayload)
      → pos ≤ length bytes
      → Holds (Forward pos) (read_varint none bytes pos >>= λ r. go (s, r.1))
  pass_varint pos s h =
      Holds-bind (IsVarintAt bytes pos) (Forward pos) (read_varint none bytes pos) _
        (read_varint-Holds bytes fits none pos h) (λ r at_pos. (at_pos.2, omega (arith, at_pos.3)))

  config_dispatch : List ℕ → ℕ → ℕ → ℕ → ConfigPayload → Flow (ConfigPayload × ℕ)
  config_dispatch b field wire pos s =
      if wire == 2
      then message_field set_section b field pos s
      else if wire == 0
      then (read_varint none b pos >>= λ r. go (s, r.1))
      else break

  config_dispatch-Holds :
      (field wire pos : ℕ) (s : ConfigPayload)
      → pos ≤ length bytes
      → SmallBehind bytes fits wire pos
      → Holds (Forward pos) (config_dispatch bytes field wire pos s)
  unfolding config_dispatch
  config_dispatch-Holds field wire pos s h behind = elim (Bool-cases (wire == 2)) [
    | inl e ↦ rw e (
        message_field-Holds bytes fits set_section field pos s h (behind ((==_iff wire 2).0 e))
          (λ start k. set_section-Holds field _ s (Fits-slice start k bytes fits)))
    | inr e ↦ elim (Bool-cases (wire == 0)) [
      | inl f ↦ rw (e, f) (pass_varint pos s h)
      | inr f ↦ rw (e, f) (tt)
    ]
  ]

  config_body-IsSafe : IsSafe config_body bytes
  unfolding config_body config_dispatch message_field
  config_body-IsSafe =
      tagged-IsSafe bytes fits (SmallBehind bytes fits) config_body config_dispatch
        (SmallLengths-behind bytes fits small) (λ _ _. refl) config_dispatch-Holds

  pub decode_config-Returns : Returns (decode_config bytes)
  unfolding decode_config
  decode_config-Returns =
      decode_fields-Returns config_body bytes fits config_body-IsSafe (no_config bytes)
