-- ===== src/Meshtastic/Dispatch/Drop.antt =====
-- Rebroadcast packets in `handleMeshPacket` (internal/meshtastic/dispatcher.go).
use mathlib.Core.Path.{subst}
use diginode_cc.Prelude.{
  is_empty, ℕ, ◌+◌, ◌≤◌, ◌<◌, ◌≡◌, refl, sym, true, false, not, ◌&&◌, Option, List, [], ◌==◌,
  if-both, Bool-cases, Option-cases, inl, inr,
}
use diginode_cc.Prelude.Assoc.{IsMap}
use diginode_cc.Serial.Wire.{
  Flow, go, exit, panic, hang, call, ◌>>=◌, Outcome, returned, panicked, running,
}
use diginode_cc.Serial.Node.{DeviceMetrics}
use diginode_cc.Serial.Packet.{MeshPacketData}
use diginode_cc.Meshtastic.Payload.{Telemetry, decode_position_payload, decode_telemetry_payload}
use diginode_cc.Meshtastic.Dedup.{Seen, dedup_window, packet_key, is_duplicate}
use diginode_cc.Meshtastic.Dedup.Window.{see-again}
use diginode_cc.Meshtastic.Dispatch.{
  port_text_message, port_position, port_routing, port_admin, port_detection_sensor, port_telemetry,
  Call, Wiring, Dispatcher, deliver_metrics_response,
}
use diginode_cc.Meshtastic.Dispatch.Mesh.{
  handle_telemetry_parts, handle_port, sender_calls, prepend, fresh_packet, handle_mesh_packet,
}

-- What an end of a handler has; a panic and an endless loop are no ends.
abbrev pub IfEnds {ℓ κ} : {A : Type ℓ} → (A → Type κ) → Flow A → Type κ
IfEnds P (go a) = P a
IfEnds P (exit e) = Unit
IfEnds P panic = Unit
IfEnds P hang = Unit

IfEnds-call {ℓ κ} :
    {A B : Type ℓ} (P : B → Type κ) (o : Outcome A) (f : A → Flow B)
    → ((a : A) → IfEnds P (f a))
    → IfEnds P (call o >>= f)
IfEnds-call P (returned a e) f h = h a
IfEnds-call P panicked f h = tt
IfEnds-call P running f h = tt

module _ (w : Wiring) where
  -- The switch on the port changes the request for metrics at most.
  module _ (P : Dispatcher → Type 0) (d : Dispatcher)
      (keeps : (q : Option (Option DeviceMetrics)) → P (record d { metrics_req = q })) where
    telemetry_parts-keeps : (from : ℕ) (t : Telemetry) → P (handle_telemetry_parts w from t d).0
    unfolding handle_telemetry_parts deliver_metrics_response
    telemetry_parts-keeps from t = elim (Option-cases t.device) [
      | inl e ↦ rw e (keeps d.metrics_req)
      | inr (dm, e) ↦ elim (Bool-cases (from == d.local_node_num)) [
        | inl own ↦ rw (e, own) (keeps _)
        | inr other ↦ rw (e, other) (keeps d.metrics_req)
      ]
    ]

    pub port-keeps : (mp : MeshPacketData) → IfEnds (λ r. P r.0) (handle_port w mp d)
    unfolding handle_port
    port-keeps mp =
        let Kept : Flow (Dispatcher × List Call) → Type 0 = IfEnds (λ r. P r.0) in
        let same : P d = keeps d.metrics_req in
        if-both Kept (mp.port_num == port_text_message) _ _ same (
          if-both Kept (mp.port_num == port_position) _ _
            (if-both Kept (w.node_handler && not (is_empty mp.payload)) _ _
              (IfEnds-call (λ r. P r.0) (decode_position_payload mp.payload) _ (λ pos. same)) same)
            (if-both Kept (mp.port_num == port_telemetry) _ _
              (if-both Kept (not (is_empty mp.payload)) _ _
                (IfEnds-call (λ r. P r.0) (decode_telemetry_payload mp.payload) _
                  (telemetry_parts-keeps mp.from))
                same)
              (if-both Kept (mp.port_num == port_detection_sensor) _ _ same (
                if-both Kept (mp.port_num == port_routing) _ _ same
                  (if-both Kept (mp.port_num == port_admin) _ _ same same)))))

  pub prepend-IfEnds :
      (P : Dispatcher → Type 0) (calls : List Call) (r : Flow (Dispatcher × List Call))
      → IfEnds (λ s. P s.0) r
      → IfEnds (λ s. P s.0) (prepend w calls r)
  unfolding prepend
  prepend-IfEnds P calls (go (d, more)) h = h
  prepend-IfEnds P calls (exit e) h = h
  prepend-IfEnds P calls panic h = h
  prepend-IfEnds P calls hang h = h

  IfEnds-map {ℓ κ μ} :
      {A : Type ℓ} (P : A → Type κ) (Q : A → Type μ) (r : Flow A)
      → ((a : A) → P a → Q a)
      → IfEnds P r
      → IfEnds Q r
  IfEnds-map P Q (go a) f h = f a h
  IfEnds-map P Q (exit e) f h = tt
  IfEnds-map P Q panic f h = tt
  IfEnds-map P Q hang f h = tt

  dropped :
      (later : ℕ) (mp : MeshPacketData) (d : Dispatcher)
      → is_duplicate later mp d.dedup ≡ (d.dedup, true)
      → handle_mesh_packet w later mp d ≡ go (d, [])
  unfolding handle_mesh_packet fresh_packet
  dropped later mp d e = rw e refl

  pub passes :
      (now : ℕ) (mp : MeshPacketData) (d : Dispatcher)
      → (is_duplicate now mp d.dedup).1 ≡ false
      → let d' : Dispatcher = record d { dedup = (is_duplicate now mp d.dedup).0 } in
        handle_mesh_packet w now mp d ≡ prepend w (sender_calls w d' mp) (handle_port w mp d')
  unfolding handle_mesh_packet fresh_packet
  passes now mp d passed = rw passed refl

  see_again :
      (now later : ℕ) (mp : MeshPacketData) (m : Seen)
      → IsMap m
      → (is_duplicate now mp m).1 ≡ false
      → now ≤ later
      → later < now + dedup_window
      → is_duplicate later mp (is_duplicate now mp m).0 ≡ ((is_duplicate now mp m).0, true)
  unfolding is_duplicate
  see_again now later mp m = see-again now later (packet_key mp) m

  -- A packet that was let pass and whose handling ends is dropped when the mesh rebroadcasts it less
  -- than 15 seconds later: nothing is called, and the dispatcher stays as it is.
  pub handle_mesh_packet-again :
      (now later : ℕ) (mp : MeshPacketData) (d : Dispatcher)
      → IsMap d.dedup
      → (is_duplicate now mp d.dedup).1 ≡ false
      → now ≤ later
      → later < now + dedup_window
      → IfEnds
          (λ r. handle_mesh_packet w later mp r.0 ≡ go (r.0, []))
          (handle_mesh_packet w now mp d)
  handle_mesh_packet-again now later mp d m passed h inside =
      let seen = (is_duplicate now mp d.dedup).0 in
      let d' : Dispatcher = record d { dedup = seen } in
      let again = see_again now later mp d.dedup m passed h inside in
      rw (passes now mp d passed) (
        prepend-IfEnds (λ s. handle_mesh_packet w later mp s ≡ go (s, [])) (sender_calls w d' mp)
          (handle_port w mp d')
          (IfEnds-map (λ r. r.0.dedup ≡ seen)
            (λ r. handle_mesh_packet w later mp r.0 ≡ go (r.0, [])) (handle_port w mp d')
            (λ r e.
              dropped later mp r.0 (subst (λ x. is_duplicate later mp x ≡ (x, true)) (sym e) again))
            (port-keeps (λ s. s.dedup ≡ seen) d' (λ q. refl) mp)))
