-- ===== src/Serial/Runs.antt =====
-- Runs of the codec of internal/serial on concrete bytes, and the theorems at concrete inputs.
use diginode_cc.Prelude.{
  ℕ, zero, suc, ◌-◌, ◌^◌, ◌≡◌, refl, true, none, some, List, [], ◌∷◌, ◌++◌, length, All, arith,
}
use diginode_cc.Prelude.Text.{codes}
use diginode_cc.Serial.Varint.{decode_varint, encode_varint, decode_zigzag}
use diginode_cc.Serial.Varint.Bounds.{IsRead, decode_varint-IsRead}
use diginode_cc.Serial.Varint.RoundTrip.{decode_varint-encode_varint}
use diginode_cc.Serial.Frame.{new_frame_decoder, wait_start1, feed_byte, feed, encode_frame}
use diginode_cc.Serial.Frame.Stream.{IsFrame, IsValid, new_frame_decoder-IsValid, feed-IsValid}
use diginode_cc.Serial.Frame.RoundTrip.{idle, encode_frames, feed-encode_frames, feed-stray_start1}
use diginode_cc.Serial.Wire.{returned, panicked, running, fields_loop}
use diginode_cc.Serial.Wire.Total.{Returns}
use diginode_cc.Serial.Field.Total.{SmallLengths}
use diginode_cc.Serial.Encode.{
  encode_tag, encode_length_delimited, build_data_message, build_mesh_packet, bluetooth_fields,
}
use diginode_cc.Serial.Packet.{decode_mesh_packet}
use diginode_cc.Serial.Packet.RoundTrip.{packet_of, decode_mesh_packet-build_mesh_packet}
use diginode_cc.Serial.Node.{
  no_my_info, no_position, no_metrics, my_info_body, position_body, metrics_body,
}
use diginode_cc.Serial.Node.Endless.{decoders_endless}
use diginode_cc.Serial.Config.{no_config, decode_config}
use diginode_cc.Serial.Config.RoundTrip.{bluetooth_of, decode_config-bluetooth}
use diginode_cc.Serial.FromRadio.{decode_from_radio, my_info, no_part}
use diginode_cc.Serial.FromRadio.Total.{decode_from_radio-Returns}
use diginode_cc.Serial.FromRadio.Malformed.{decode_from_radio-panicked}

-- A `FromRadio` with my_info: node number 5.
abbrev my_info_frame : List ℕ
my_info_frame = 0x1A ∷ 0x02 ∷ 0x08 ∷ 0x05 ∷ []

decode_my_info_frame :
    decode_from_radio my_info_frame
    ≡ returned
        (some (record (no_part my_info_frame) {
          kind = my_info;
          my_info_part = some (record no_my_info { my_node_num = 5 });
        }))
        none
unfolding decode_from_radio
decode_my_info_frame = refl

-- rx_rssi -7 as a sint32 is the varint 13.
zigzag_13 : decode_zigzag 13 ≡ 2 ^ 64 - 7
unfolding decode_zigzag
zigzag_13 = refl

feed_noise : (feed new_frame_decoder (1 ∷ 0x94 ∷ 0xC3 ∷ 0 ∷ 2 ∷ 7 ∷ 8 ∷ [])).1 ≡ (7 ∷ 8 ∷ []) ∷ []
unfolding feed feed_byte new_frame_decoder
feed_noise = refl

my_info_frame-SmallLengths : SmallLengths my_info_frame
unfolding decode_varint
my_info_frame-SmallLengths zero h = omega arith
my_info_frame-SmallLengths (suc zero) h = omega arith
my_info_frame-SmallLengths (suc (suc zero)) h = omega arith
my_info_frame-SmallLengths (suc (suc (suc zero))) h = omega arith
my_info_frame-SmallLengths (suc (suc (suc (suc zero)))) h = omega arith
my_info_frame-SmallLengths (suc (suc (suc (suc (suc n))))) h = absurd (omega arith)

decode_from_radio-Returns_example : Returns (decode_from_radio my_info_frame)
decode_from_radio-Returns_example =
    decode_from_radio-Returns my_info_frame (omega arith) my_info_frame-SmallLengths

decode_mesh_packet-build_mesh_packet_example :
    decode_mesh_packet
      (build_mesh_packet (1 ∷ 2 ∷ 3 ∷ 4 ∷ []) 0xFFFFFFFF (build_data_message 1 (codes "hi")))
    ≡ returned (packet_of (1 ∷ 2 ∷ 3 ∷ 4 ∷ []) 0xFFFFFFFF 1 (codes "hi")) none
decode_mesh_packet-build_mesh_packet_example =
    decode_mesh_packet-build_mesh_packet (1 ∷ 2 ∷ 3 ∷ 4 ∷ []) 0xFFFFFFFF 1 (codes "hi")
      (omega arith) (omega arith) (omega arith) (omega arith)

abbrev two_frames : List (List ℕ)
two_frames = (7 ∷ 8 ∷ []) ∷ (9 ∷ []) ∷ []

feed-encode_frames_example :
    ((feed (idle [] 0) (encode_frames two_frames)).1 ≡ two_frames)
    × ((feed (idle [] 0) (encode_frames two_frames)).0.state ≡ wait_start1)
feed-encode_frames_example = feed-encode_frames (idle [] 0) two_frames refl (omega arith)

feed-IsValid_example :
    IsValid (feed new_frame_decoder (0x94 ∷ 0xC3 ∷ 0 ∷ 1 ∷ 7 ∷ [])).0
    × All IsFrame (feed new_frame_decoder (0x94 ∷ 0xC3 ∷ 0 ∷ 1 ∷ 7 ∷ [])).1
feed-IsValid_example =
    feed-IsValid new_frame_decoder (0x94 ∷ 0xC3 ∷ 0 ∷ 1 ∷ 7 ∷ []) new_frame_decoder-IsValid

decode_varint-encode_varint_example :
    decode_varint (encode_varint 300 ++ (9 ∷ [])) ≡ (300, length (encode_varint 300))
decode_varint-encode_varint_example = decode_varint-encode_varint 300 (9 ∷ []) (omega arith)

decode_varint-IsRead_example : IsRead 3 (decode_varint (0xAC ∷ 0x02 ∷ 9 ∷ []))
decode_varint-IsRead_example = decode_varint-IsRead (0xAC ∷ 0x02 ∷ 9 ∷ []) (omega arith)

decode_from_radio-panicked_example :
    decode_from_radio (encode_tag 3 2 ++ (encode_varint (2 ^ 64 - 1) ++ (0 ∷ []))) ≡ panicked
unfolding encode_tag encode_varint
decode_from_radio-panicked_example =
    decode_from_radio-panicked 3 (2 ^ 64 - 1) (0 ∷ []) (omega arith) (omega arith) (omega arith)
      (omega arith)

decoders_endless_example :
    let bytes = encode_tag 1 2 ++ (encode_varint (2 ^ 64 - 11) ++ []) in
    (fields_loop my_info_body 1000 bytes 0 no_my_info ≡ running)
    × (fields_loop position_body 1000 bytes 0 no_position ≡ running)
    × (fields_loop metrics_body 1000 bytes 0 no_metrics ≡ running)
unfolding encode_tag encode_varint
decoders_endless_example =
    decoders_endless 1 (2 ^ 64 - 11) [] (omega arith, omega arith, refl) (omega arith) 1000
      no_my_info no_position no_metrics

decode_config-bluetooth_example :
    decode_config (encode_length_delimited 7 (bluetooth_fields true 1 123456))
    ≡ returned
        (record (no_config (encode_length_delimited 7 (bluetooth_fields true 1 123456))) {
          section = codes "bluetooth";
          bluetooth = some (bluetooth_of true 1 123456);
        })
        none
decode_config-bluetooth_example = decode_config-bluetooth true 1 123456 (omega arith) (omega arith)

feed-stray_start1_example :
    ((feed (idle [] 0) (0x94 ∷ encode_frame (7 ∷ []))).1 ≡ [])
    × ((feed (idle [] 0) (0x94 ∷ encode_frame (7 ∷ []))).0.state ≡ wait_start1)
feed-stray_start1_example =
    feed-stray_start1 (idle [] 0) (7 ∷ []) refl (omega arith) (omega arith) (omega arith)
