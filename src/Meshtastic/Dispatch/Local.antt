-- ===== src/Meshtastic/Dispatch/Local.antt =====
-- Which node the dispatcher takes for its own, and whose firmware it reports
-- (internal/meshtastic/dispatcher.go).
use diginode_cc.Prelude.{
  is_empty, ℕ, ◌≡◌, ◌≢◌, refl, Bool, true, false, Option, none, some, List, [], ◌∷◌, All, ◌==◌,
  if-both, Bool-cases, inl, inr, arith,
}
use diginode_cc.Serial.Wire.{Flow, go, exit, panic, hang, ◌>>=◌}
use diginode_cc.Serial.Node.{MyNodeInfo, NodeInfoLite}
use diginode_cc.Serial.Packet.{MeshPacketData}
use diginode_cc.Serial.FromRadio.{
  DeviceMetadata, FromRadioPacket, FromRadioType, unknown, my_info, node_info, mesh_packet, config,
  channel, metadata, config_complete, rebooted,
}
use diginode_cc.Meshtastic.Dedup.{is_duplicate}
use diginode_cc.Meshtastic.Dispatch.{
  Call, set_firmware_version, Wiring, Dispatcher, handle_my_info, handle_node_info_packet,
  handle_metadata,
}
use diginode_cc.Meshtastic.Dispatch.Mesh.{
  sender_calls, handle_port, prepend, fresh_packet, handle_mesh_packet, on_part, handle_kind,
  handle_packet,
}
use diginode_cc.Meshtastic.Dispatch.Drop.{IfEnds, prepend-IfEnds, port-keeps}

-- The local node is known.
abbrev pub IsPinned : ℕ → Dispatcher → Type 0
IsPinned num d = (d.local_node_seen ≡ true) × (d.local_node_num ≡ num)

abbrev pub is_my_info : FromRadioType → Bool
is_my_info my_info = true
is_my_info _ = false

abbrev pub last_call : List Call → Option Call
last_call [] = none
last_call (c ∷ []) = some c
last_call (c ∷ cs) = last_call cs

module _ (w : Wiring) where
  -- Packets at the times at which they are handled, and the calls that they lead to.
  pub handle_packets : List (ℕ × FromRadioPacket) → Dispatcher → Flow (Dispatcher × List Call)
  unfolding handle_packet prepend
  handle_packets [] d = go (d, [])
  handle_packets ((now, pkt) ∷ ps) d =
      handle_packet w now pkt d >>= λ r. prepend w r.1 (handle_packets ps r.0)

  fresh-IsPinned :
      (num : ℕ) (mp : MeshPacketData) (d : Dispatcher) (dup : Bool)
      → IsPinned num d
      → IfEnds (λ r. IsPinned num r.0) (fresh_packet w mp d dup)
  unfolding fresh_packet
  fresh-IsPinned num mp d true p = p
  fresh-IsPinned num mp d false p =
      prepend-IfEnds w (IsPinned num) (sender_calls w d mp) (handle_port w mp d)
        (port-keeps w (IsPinned num) d (λ q. p) mp)

  on_part-IfEnds {ℓ} :
      {A : Type ℓ} (P : Dispatcher → Type 0) (d : Dispatcher)
      (f : A → Flow (Dispatcher × List Call)) (o : Option A)
      → P d
      → ((a : A) → IfEnds (λ r. P r.0) (f a))
      → IfEnds (λ r. P r.0) (on_part w d f o)
  unfolding on_part
  on_part-IfEnds P d f none p h = p
  on_part-IfEnds P d f (some a) p h = h a

  node_info-IsPinned :
      (num : ℕ) (info : NodeInfoLite) (d : Dispatcher)
      → IsPinned num d
      → IsPinned num (handle_node_info_packet w info d).0
  unfolding handle_node_info_packet
  node_info-IsPinned num info d (seen, n) = ground (arith, seen, n)

  metadata-IsPinned :
      (num : ℕ) (meta : DeviceMetadata) (d : Dispatcher)
      → IsPinned num d
      → IsPinned num (handle_metadata w meta d).0
  unfolding handle_metadata
  metadata-IsPinned num meta d p =
      if-both {A = Dispatcher × List Call} (λ r. IsPinned num r.0) (is_empty meta.firmware_version)
        _ _ p p

  kind-IsPinned :
      (num now : ℕ) (kind : FromRadioType) (pkt : FromRadioPacket) (d : Dispatcher)
      → is_my_info kind ≡ false
      → IsPinned num d
      → IfEnds (λ r. IsPinned num r.0) (handle_kind w kind now pkt d)
  unfolding handle_kind handle_mesh_packet
  kind-IsPinned num now my_info pkt d other p = ground arith
  kind-IsPinned num now node_info pkt d other p =
      on_part-IfEnds (IsPinned num) d _ pkt.node_info_part p
        (λ info. node_info-IsPinned num info d p)
  kind-IsPinned num now mesh_packet pkt d other p =
      on_part-IfEnds (IsPinned num) d _ pkt.mesh_packet_part p
        (λ mp. fresh-IsPinned num mp _ (is_duplicate now mp d.dedup).1 p)
  kind-IsPinned num now config pkt d other p =
      on_part-IfEnds (IsPinned num) d _ pkt.config_part p (λ cfg. p)
  kind-IsPinned num now metadata pkt d other p =
      on_part-IfEnds (IsPinned num) d _ pkt.metadata_part p (λ meta. metadata-IsPinned num meta d p)
  kind-IsPinned num now unknown pkt d other p = p
  kind-IsPinned num now channel pkt d other p = p
  kind-IsPinned num now config_complete pkt d other p = p
  kind-IsPinned num now rebooted pkt d other p = p

  after-IsPinned :
      (num : ℕ) (r : Flow (Dispatcher × List Call))
      (k : Dispatcher × List Call → Flow (Dispatcher × List Call))
      → IfEnds (λ s. IsPinned num s.0) r
      → ((s : Dispatcher × List Call) → IsPinned num s.0 → IfEnds (λ s'. IsPinned num s'.0) (k s))
      → IfEnds (λ s. IsPinned num s.0) (r >>= k)
  after-IsPinned num (go s) k h f = f s h
  after-IsPinned num (exit e) k h f = tt
  after-IsPinned num panic k h f = tt
  after-IsPinned num hang k h f = tt

  -- Once the local node is known, no packet but a `MyInfo` changes which one it is: not the node
  -- infos, the mesh packets, the configurations and the metadata, in any number and order, as long
  -- as their handling ends.
  pub handle_packets-IsPinned :
      (num : ℕ) (ps : List (ℕ × FromRadioPacket)) (d : Dispatcher)
      → All (λ p. is_my_info p.1.kind ≡ false) ps
      → IsPinned num d
      → IfEnds (λ r. IsPinned num r.0) (handle_packets ps d)
  unfolding handle_packets handle_packet
  handle_packets-IsPinned num [] d others p = p
  handle_packets-IsPinned num ((now, pkt) ∷ ps) d (o, others) p =
      after-IsPinned num (handle_kind w pkt.kind now pkt d) _
        (kind-IsPinned num now pkt.kind pkt d o p)
        (λ r p'.
          prepend-IfEnds w (IsPinned num) r.1 (handle_packets ps r.0)
            (handle_packets-IsPinned num ps r.0 others p'))

  -- The firmware of the local node is reported whichever comes first, the node's number or the
  -- metadata: a dispatcher with a node handler that gets both, from packets with a number that
  -- is not 0 and a version that is not empty, ends in one state, and its last call is that report.
  pub handle_metadata_my_info :
      (info : MyNodeInfo) (meta : DeviceMetadata) (d : Dispatcher)
      → w.node_handler ≡ true
      → info.my_node_num ≢ 0
      → is_empty meta.firmware_version ≡ false
      → let (d1, calls1) = handle_my_info w info d in
        let (d2, calls2) = handle_metadata w meta d1 in
        let (e1, calls3) = handle_metadata w meta d in
        let (e2, calls4) = handle_my_info w info e1 in
        let report = set_firmware_version info.my_node_num meta.firmware_version in
        (d2 ≡ e2) × (last_call calls2 ≡ some report) × (last_call calls4 ≡ some report)
  unfolding handle_my_info handle_metadata
  handle_metadata_my_info info meta d node known version =
      let e : (info.my_node_num == 0) ≡ false = ground arith in
      rw (node, e, version)
        (
          refl,
          rw e refl,
          elim (Bool-cases w.on_device_time) [
            | inl t ↦ rw (t, version) refl
            | inr t ↦ rw (t, version) refl
          ],
        )
