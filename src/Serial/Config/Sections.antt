-- ===== src/Serial/Config/Sections.antt =====
-- `decodeConfig` on the configurations of one number that `BuildAdminDisplayConfig` and
-- `BuildAdminPositionConfig` (internal/serial/encode.go) write.
use diginode_cc.Prelude.{
  ℕ, ◌<◌, ◌^◌, ◌≡◌, refl, ap, ◌∙◌, none, some, List, [], ◌++◌, append-nil, arith,
}
use diginode_cc.Prelude.Text.{codes}
use diginode_cc.Serial.Varint.{IsU32, u32}
use diginode_cc.Serial.Encode.{encode_varint_field, encode_length_delimited}
use diginode_cc.Serial.Encode.Laws.{length-encode_varint_field, varint_chunk}
use diginode_cc.Serial.Config.{
  PositionConfig, no_position, set_position, decode_position_config, DisplayConfig, no_display,
  set_display, decode_display_config, varints_body, ConfigPayload, no_config, set_section,
  decode_config,
}
use diginode_cc.Serial.Wire.{go, call, ◌>>=◌, returned, decode_fields}
use diginode_cc.Serial.Wire.Chunks.{Chunks, end, decode_fields-Chunks}
use diginode_cc.Serial.Config.RoundTrip.{varints_body-varint, one_section}

set_section-display :
    (sub : List ℕ) (cfg : ConfigPayload) (c : DisplayConfig)
    → decode_display_config sub ≡ returned c none
    → set_section 5 sub cfg ≡ go (record cfg { section = codes "display"; display = some c })
set_section-display sub cfg c e = shut ∙ rw e
  where
    shut : set_section 5 sub cfg ≡ (
        call (decode_display_config sub) >>= λ c.
        go (record cfg { section = codes "display"; display = some c }))
    shut = unfold set_section in refl

set_section-position :
    (sub : List ℕ) (cfg : ConfigPayload) (c : PositionConfig)
    → decode_position_config sub ≡ returned c none
    → set_section 2 sub cfg ≡ go (record cfg { section = codes "position"; position = some c })
set_section-position sub cfg c e = shut ∙ rw e
  where
    shut : set_section 2 sub cfg ≡ (
        call (decode_position_config sub) >>= λ c.
        go (record cfg { section = codes "position"; position = some c }))
    shut = unfold set_section in refl

-- A message with one varint.
one_varint {ℓ} :
    {S : Type ℓ} (set : ℕ → ℕ → S → S) (field v : ℕ) (s : S)
    → field < 2 ^ 61
    → IsU32 v
    → decode_fields (varints_body set) (encode_varint_field field v) s
      ≡ returned (set field v s) none
one_varint set field v s hf hv =
    let body = varints_body set in
    let bytes = encode_varint_field field v in
    let whole : Chunks body s (bytes ++ []) (set field v s) =
      varint_chunk body set field v hf (omega arith) (varints_body-varint set field) end in
    decode_fields-Chunks body (rw (append-nil bytes) at whole)
      (omega (arith, length-encode_varint_field field v hf (omega arith)))

decode_display_config_lem :
    (bytes : List ℕ)
    → decode_display_config bytes ≡ decode_fields (varints_body set_display) bytes no_display
unfolding decode_display_config
decode_display_config_lem bytes = refl

decode_position_config_lem :
    (bytes : List ℕ)
    → decode_position_config bytes ≡ decode_fields (varints_body set_position) bytes no_position
unfolding decode_position_config
decode_position_config_lem bytes = refl

set_display-screen :
    (secs : ℕ)
    → IsU32 secs
    → set_display 1 secs no_display ≡ record no_display { screen_on_secs = secs }
unfolding set_display
set_display-screen secs h = let e : u32 secs ≡ secs = omega arith in rw e

set_position-gps :
    (mode : ℕ)
    → IsU32 mode
    → set_position 13 mode no_position ≡ record no_position { gps_mode = mode }
unfolding set_position
set_position-gps mode h = let e : u32 mode ≡ mode = omega arith in rw e

-- The `Config` of `BuildAdminDisplayConfig` is decoded to the section "display" with the number of
-- seconds that it was given.
pub decode_config-display :
    (secs : ℕ)
    → IsU32 secs
    → let bytes = encode_length_delimited 5 (encode_varint_field 1 secs) in
      decode_config bytes
      ≡ returned
          (record (no_config bytes) {
            section = codes "display";
            display = some (record no_display { screen_on_secs = secs });
          })
          none
decode_config-display secs h =
    let sub = encode_varint_field 1 secs in
    one_section 5 sub _ (omega arith)
      (omega (arith, length-encode_varint_field 1 secs (omega arith) (omega arith)))
      (set_section-display sub _ _ (
        decode_display_config_lem sub
        ∙ one_varint set_display 1 secs no_display (omega arith) h
        ∙ ap (λ c. returned c none) (set_display-screen secs h)))

-- The `Config` of `BuildAdminPositionConfig` is decoded to the section "position" with the GPS
-- mode that it was given.
pub decode_config-position :
    (mode : ℕ)
    → IsU32 mode
    → let bytes = encode_length_delimited 2 (encode_varint_field 13 mode) in
      decode_config bytes
      ≡ returned
          (record (no_config bytes) {
            section = codes "position";
            position = some (record no_position { gps_mode = mode });
          })
          none
decode_config-position mode h =
    let sub = encode_varint_field 13 mode in
    one_section 2 sub _ (omega arith)
      (omega (arith, length-encode_varint_field 13 mode (omega arith) (omega arith)))
      (set_section-position sub _ _ (
        decode_position_config_lem sub
        ∙ one_varint set_position 13 mode no_position (omega arith) h
        ∙ ap (λ c. returned c none) (set_position-gps mode h)))
