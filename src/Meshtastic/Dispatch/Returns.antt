-- ===== src/Meshtastic/Dispatch/Returns.antt =====
-- Well-formed and hostile payloads in `handleMeshPacket` (internal/meshtastic/dispatcher.go).
use diginode_cc.Prelude.{
  is_empty, ℕ, ◌≡◌, refl, ap, ◌∙◌, length, Bool, true, false, not, ◌&&◌, List, [], ◌∷◌, ◌++◌, ◌==◌,
  if-both,
}
use diginode_cc.Serial.Varint.{encode_varint}
use diginode_cc.Serial.Encode.{encode_tag}
use diginode_cc.Serial.Node.{no_position, no_metrics}
use diginode_cc.Serial.Node.Endless.{IsBackward}
use diginode_cc.Serial.Wire.{
  Flow, go, hang, call, ◌>>=◌, Outcome, running, fields_loop, decode_fields,
}
use diginode_cc.Serial.Wire.Chunks.{Fits}
use diginode_cc.Serial.Wire.Total.{Returns}
use diginode_cc.Serial.Field.Total.{SmallLengths}
use diginode_cc.Serial.Packet.{MeshPacketData}
use diginode_cc.Meshtastic.Payload.{
  no_environment, decode_position_payload, decode_telemetry_payload,
}
use diginode_cc.Meshtastic.Payload.Total.{payloads-Returns}
use diginode_cc.Meshtastic.Payload.Endless.{payloads_endless}
use diginode_cc.Meshtastic.Dedup.{is_duplicate}
use diginode_cc.Meshtastic.Dispatch.{
  port_text_message, port_position, port_routing, port_admin, port_detection_sensor, port_telemetry,
  Call, Wiring, Dispatcher,
}
use diginode_cc.Meshtastic.Dispatch.Mesh.{
  sender_calls, handle_port, prepend, fresh_packet, handle_mesh_packet,
}
use diginode_cc.Meshtastic.Dispatch.Drop.{passes}

-- The handler comes to its end.
abbrev pub Goes {ℓ} : {A : Type ℓ} → Flow A → Type ℓ
Goes {A = A} r = (a : A) × (r ≡ go a)

Goes-call {ℓ} :
    {A B : Type ℓ} (o : Outcome A) (f : A → Flow B)
    → Returns o
    → ((a : A) → Goes (f a))
    → Goes (call o >>= f)
Goes-call o f (a, e, r) h = rw r (h a)

module _ (w : Wiring) where
  port-Goes :
      (mp : MeshPacketData) (d : Dispatcher)
      → Fits mp.payload
      → SmallLengths mp.payload
      → Goes (handle_port w mp d)
  unfolding handle_port
  port-Goes mp d fits small =
      let (position, telemetry) = payloads-Returns mp.payload fits small in
      if-both Goes (mp.port_num == port_text_message) _ _ (_, refl)
        (if-both Goes (mp.port_num == port_position) _ _
          (if-both Goes (w.node_handler && not (is_empty mp.payload)) _ _
            (Goes-call (decode_position_payload mp.payload) _ position (λ pos. (_, refl)))
            (_, refl))
          (if-both Goes (mp.port_num == port_telemetry) _ _
            (if-both Goes (not (is_empty mp.payload)) _ _
              (Goes-call (decode_telemetry_payload mp.payload) _ telemetry (λ t. (_, refl)))
              (_, refl))
            (if-both Goes (mp.port_num == port_detection_sensor) _ _ (_, refl)
              (if-both Goes (mp.port_num == port_routing) _ _ (_, refl)
                (if-both Goes (mp.port_num == port_admin) _ _ (_, refl) (_, refl))))))

  prepend-Goes :
      (calls : List Call) (r : Flow (Dispatcher × List Call)) → Goes r → Goes (prepend w calls r)
  unfolding prepend
  prepend-Goes calls r ((d, more), e) = rw e (_, refl)

  fresh-Goes :
      (mp : MeshPacketData) (d : Dispatcher) (dup : Bool)
      → Fits mp.payload
      → SmallLengths mp.payload
      → Goes (fresh_packet w mp d dup)
  unfolding fresh_packet
  fresh-Goes mp d true fits small = (_, refl)
  fresh-Goes mp d false fits small =
      prepend-Goes (sender_calls w d mp) (handle_port w mp d) (port-Goes mp d fits small)

  -- `handleMeshPacket` comes to its end, on every port, for every packet with a payload of fewer
  -- than 2 ^ 62 bytes in which each length-delimited field that can be read, at whatever position,
  -- has a length below 2 ^ 62.
  pub handle_mesh_packet-Goes :
      (now : ℕ) (mp : MeshPacketData) (d : Dispatcher)
      → Fits mp.payload
      → SmallLengths mp.payload
      → Goes (handle_mesh_packet w now mp d)
  unfolding handle_mesh_packet
  handle_mesh_packet-Goes now mp d fits small =
      fresh-Goes mp (record d { dedup = (is_duplicate now mp d.dedup).0 })
        (is_duplicate now mp d.dedup).1 fits small

not_empty : (bytes : List ℕ) → decode_position_payload bytes ≡ running → is_empty bytes ≡ false
unfolding decode_position_payload decode_fields fields_loop
not_empty [] e = cc
not_empty (b ∷ bs) e = refl

position_endless :
    (field v : ℕ) (rest : List ℕ)
    → IsBackward field v
    → Fits (encode_tag field 2 ++ (encode_varint v ++ rest))
    → decode_position_payload (encode_tag field 2 ++ (encode_varint v ++ rest)) ≡ running
unfolding decode_position_payload decode_fields
position_endless field v rest back fits =
    let bytes = encode_tag field 2 ++ (encode_varint v ++ rest) in
    (payloads_endless field v rest back fits (length bytes) no_position no_metrics no_environment).0

-- `handleMeshPacket` never comes to its end on a position packet, from whatever node, that is no
-- duplicate and whose payload, of fewer than 2 ^ 62 bytes, begins with a length-delimited field, of
-- any number below 2 ^ 61, whose length, as an `int`, is minus the number of bytes that its tag and
-- its length take, if there is a node handler.
pub handle_mesh_packet-hang :
    (w : Wiring) (now field v : ℕ) (rest : List ℕ) (mp : MeshPacketData) (d : Dispatcher)
    → w.node_handler ≡ true
    → mp.port_num ≡ port_position
    → mp.payload ≡ encode_tag field 2 ++ (encode_varint v ++ rest)
    → IsBackward field v
    → Fits (encode_tag field 2 ++ (encode_varint v ++ rest))
    → (is_duplicate now mp d.dedup).1 ≡ false
    → handle_mesh_packet w now mp d ≡ hang
unfolding prepend handle_port
handle_mesh_packet-hang w now field v rest mp d node position e back fits passed =
    let endless : decode_position_payload mp.payload ≡ running =
      ap decode_position_payload e ∙ position_endless field v rest back fits in
    passes w now mp d passed ∙ rw (position, node, not_empty mp.payload endless, endless) refl
