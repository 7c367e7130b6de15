-- ===== src/Serial/Node/Total.antt =====
-- The decoders of `Node` return on every input with small lengths.
use diginode_cc.Prelude.{
  ℕ, ◌≤◌, ◌≡◌, refl, some, Bool-cases, inl, inr, ◌==◌, ==_iff, List, take, drop, length,
  if◌then◌else◌,
}
use diginode_cc.Serial.Field.{
  varint_field, bytes_field, message_field, fixed32_field, skipped_field,
}
use diginode_cc.Serial.Field.Total.{
  SmallLengths, SmallBehind, SmallLengths-behind, tagged-IsSafe, varint_field-Holds,
  bytes_field-Holds, message_field-Holds, fixed32_field-Holds, skipped_field-Holds,
}
use diginode_cc.Serial.Field.Slices.{SmallLengths-slice, Fits-slice}
use diginode_cc.Serial.Wire.{Flow, go, ◌>>=◌, call}
use diginode_cc.Serial.Wire.Chunks.{Fits}
use diginode_cc.Serial.Wire.Total.{
  Holds, Holds-call, Forward, Returns, IsSafe, decode_fields-Returns,
}
use diginode_cc.Serial.Node.{
  MyNodeInfo, UserInfo, PositionData, DeviceMetrics, NodeInfoLite, no_my_info, no_user, no_position,
  no_metrics, no_node_info, set_my_info, my_info_body, decode_my_info, set_user_bytes, set_user,
  user_body, decode_user_info, set_position_fixed, set_position, position_body, decode_position,
  set_metrics, set_metrics_fixed, metrics_body, decode_device_metrics, set_node, set_node_message,
  set_node_fixed, node_body, decode_node_info,
}

module _ (bytes : List ℕ) (fits : Fits bytes) (small : SmallLengths bytes) where
  my_info_dispatch : List ℕ → ℕ → ℕ → ℕ → MyNodeInfo → Flow (MyNodeInfo × ℕ)
  my_info_dispatch b field wire pos s =
      if wire == 0 then varint_field set_my_info b field pos s else skipped_field b wire pos s

  my_info_dispatch-Holds :
      (field wire pos : ℕ) (s : MyNodeInfo)
      → pos ≤ length bytes
      → SmallBehind bytes fits wire pos
      → Holds (Forward pos) (my_info_dispatch bytes field wire pos s)
  unfolding my_info_dispatch
  my_info_dispatch-Holds field wire pos s h behind = elim (Bool-cases (wire == 0)) [
    | inl e ↦ rw e (varint_field-Holds bytes fits set_my_info field pos s h)
    | inr e ↦ rw e (skipped_field-Holds bytes fits wire pos s h behind)
  ]

  my_info_body-IsSafe : IsSafe my_info_body bytes
  unfolding my_info_body my_info_dispatch
  my_info_body-IsSafe =
      tagged-IsSafe bytes fits (SmallBehind bytes fits) my_info_body my_info_dispatch
        (SmallLengths-behind bytes fits small) (λ _ _. refl) my_info_dispatch-Holds

  pub decode_my_info-Returns : Returns (decode_my_info bytes)
  unfolding decode_my_info
  decode_my_info-Returns =
      decode_fields-Returns my_info_body bytes fits my_info_body-IsSafe no_my_info

  user_dispatch : List ℕ → ℕ → ℕ → ℕ → UserInfo → Flow (UserInfo × ℕ)
  user_dispatch b field wire pos s =
      if wire == 2
      then bytes_field set_user_bytes b field pos s
      else if wire == 0
      then varint_field set_user b field pos s
      else skipped_field b wire pos s

  user_dispatch-Holds :
      (field wire pos : ℕ) (s : UserInfo)
      → pos ≤ length bytes
      → SmallBehind bytes fits wire pos
      → Holds (Forward pos) (user_dispatch bytes field wire pos s)
  unfolding user_dispatch
  user_dispatch-Holds field wire pos s h behind = elim (Bool-cases (wire == 2)) [
    | inl e ↦
        rw e
          (bytes_field-Holds bytes fits set_user_bytes field pos s h (behind ((==_iff wire 2).0 e)))
    | inr e ↦ elim (Bool-cases (wire == 0)) [
      | inl f ↦ rw (e, f) (varint_field-Holds bytes fits set_user field pos s h)
      | inr f ↦ rw (e, f) (skipped_field-Holds bytes fits wire pos s h behind)
    ]
  ]

  user_body-IsSafe : IsSafe user_body bytes
  unfolding user_body user_dispatch
  user_body-IsSafe =
      tagged-IsSafe bytes fits (SmallBehind bytes fits) user_body user_dispatch
        (SmallLengths-behind bytes fits small) (λ _ _. refl) user_dispatch-Holds

  pub decode_user_info-Returns : Returns (decode_user_info bytes)
  unfolding decode_user_info
  decode_user_info-Returns = decode_fields-Returns user_body bytes fits user_body-IsSafe no_user

  position_dispatch : List ℕ → ℕ → ℕ → ℕ → PositionData → Flow (PositionData × ℕ)
  position_dispatch b field wire pos s =
      if wire == 5
      then fixed32_field set_position_fixed b field pos s
      else if wire == 0
      then varint_field set_position b field pos s
      else skipped_field b wire pos s

  position_dispatch-Holds :
      (field wire pos : ℕ) (s : PositionData)
      → pos ≤ length bytes
      → SmallBehind bytes fits wire pos
      → Holds (Forward pos) (position_dispatch bytes field wire pos s)
  unfolding position_dispatch
  position_dispatch-Holds field wire pos s h behind = elim (Bool-cases (wire == 5)) [
    | inl e ↦ rw e (fixed32_field-Holds bytes fits set_position_fixed field pos s h)
    | inr e ↦ elim (Bool-cases (wire == 0)) [
      | inl f ↦ rw (e, f) (varint_field-Holds bytes fits set_position field pos s h)
      | inr f ↦ rw (e, f) (skipped_field-Holds bytes fits wire pos s h behind)
    ]
  ]

  position_body-IsSafe : IsSafe position_body bytes
  unfolding position_body position_dispatch
  position_body-IsSafe =
      tagged-IsSafe bytes fits (SmallBehind bytes fits) position_body position_dispatch
        (SmallLengths-behind bytes fits small) (λ _ _. refl) position_dispatch-Holds

  pub decode_position-Returns : Returns (decode_position bytes)
  unfolding decode_position
  decode_position-Returns =
      decode_fields-Returns position_body bytes fits position_body-IsSafe no_position

  metrics_dispatch : List ℕ → ℕ → ℕ → ℕ → DeviceMetrics → Flow (DeviceMetrics × ℕ)
  metrics_dispatch b field wire pos s =
      if wire == 0
      then varint_field set_metrics b field pos s
      else if wire == 5
      then fixed32_field set_metrics_fixed b field pos s
      else skipped_field b wire pos s

  metrics_dispatch-Holds :
      (field wire pos : ℕ) (s : DeviceMetrics)
      → pos ≤ length bytes
      → SmallBehind bytes fits wire pos
      → Holds (Forward pos) (metrics_dispatch bytes field wire pos s)
  unfolding metrics_dispatch
  metrics_dispatch-Holds field wire pos s h behind = elim (Bool-cases (wire == 0)) [
    | inl e ↦ rw e (varint_field-Holds bytes fits set_metrics field pos s h)
    | inr e ↦ elim (Bool-cases (wire == 5)) [
      | inl f ↦ rw (e, f) (fixed32_field-Holds bytes fits set_metrics_fixed field pos s h)
      | inr f ↦ rw (e, f) (skipped_field-Holds bytes fits wire pos s h behind)
    ]
  ]

  metrics_body-IsSafe : IsSafe metrics_body bytes
  unfolding metrics_body metrics_dispatch
  metrics_body-IsSafe =
      tagged-IsSafe bytes fits (SmallBehind bytes fits) metrics_body metrics_dispatch
        (SmallLengths-behind bytes fits small) (λ _ _. refl) metrics_dispatch-Holds

  pub decode_device_metrics-Returns : Returns (decode_device_metrics bytes)
  unfolding decode_device_metrics
  decode_device_metrics-Returns =
      decode_fields-Returns metrics_body bytes fits metrics_body-IsSafe no_metrics

set_node_message_lem :
    (field : ℕ) (sub : List ℕ) (info : NodeInfoLite)
    → set_node_message field sub info ≡ (
        if field == 2
        then (call (decode_user_info sub) >>= λ u. go (record info { user = some u }))
        else if field == 3
        then (call (decode_position sub) >>= λ p. go (record info { position = some p }))
        else if field == 6
        then (call (decode_device_metrics sub) >>= λ m.
            go (record info { device_metrics = some m }))
        else go info)
unfolding set_node_message
set_node_message_lem field sub info = refl

module _ (bytes : List ℕ) (fits : Fits bytes) (small : SmallLengths bytes) where
  node_messages :
      (field : ℕ) (s : NodeInfoLite) (start k : ℕ)
      → Holds (λ s'. Unit {0}) (set_node_message field (take k (drop start bytes)) s)
  node_messages field s start k =
      let sub = take k (drop start bytes) in
      let fits' = Fits-slice start k bytes fits in
      let small' = SmallLengths-slice start k bytes small in
      rw (set_node_message_lem field sub s) (elim (Bool-cases (field == 2)) [
        | inl e ↦
            rw e (Holds-call (decode_user_info sub) _ (decode_user_info-Returns sub fits' small'))
        | inr e ↦ elim (Bool-cases (field == 3)) [
          | inl f ↦
              rw (e, f)
                (Holds-call (decode_position sub) _ (decode_position-Returns sub fits' small'))
          | inr f ↦ elim (Bool-cases (field == 6)) [
            | inl g ↦
                rw (e, f, g)
                  (Holds-call (decode_device_metrics sub) _
                    (decode_device_metrics-Returns sub fits' small'))
            | inr g ↦ rw (e, f, g) tt
          ]
        ]
      ])

  node_dispatch : List ℕ → ℕ → ℕ → ℕ → NodeInfoLite → Flow (NodeInfoLite × ℕ)
  node_dispatch b field wire pos s =
      if wire == 0
      then varint_field set_node b field pos s
      else if wire == 2
      then message_field set_node_message b field pos s
      else if wire == 5
      then fixed32_field set_node_fixed b field pos s
      else skipped_field b wire pos s

  node_dispatch-Holds :
      (field wire pos : ℕ) (s : NodeInfoLite)
      → pos ≤ length bytes
      → SmallBehind bytes fits wire pos
      → Holds (Forward pos) (node_dispatch bytes field wire pos s)
  unfolding node_dispatch
  node_dispatch-Holds field wire pos s h behind = elim (Bool-cases (wire == 0)) [
    | inl e ↦ rw e (varint_field-Holds bytes fits set_node field pos s h)
    | inr e ↦ elim (Bool-cases (wire == 2)) [
      | inl f ↦
          rw (e, f)
            (message_field-Holds bytes fits set_node_message field pos s h
              (behind ((==_iff wire 2).0 f)) (node_messages field s))
      | inr f ↦ elim (Bool-cases (wire == 5)) [
        | inl g ↦ rw (e, f, g) (fixed32_field-Holds bytes fits set_node_fixed field pos s h)
        | inr g ↦ rw (e, f, g) (skipped_field-Holds bytes fits wire pos s h behind)
      ]
    ]
  ]

  node_body-IsSafe : IsSafe node_body bytes
  unfolding node_body node_dispatch
  node_body-IsSafe =
      tagged-IsSafe bytes fits (SmallBehind bytes fits) node_body node_dispatch
        (SmallLengths-behind bytes fits small) (λ _ _. refl) node_dispatch-Holds

  pub decode_node_info-Returns : Returns (decode_node_info bytes)
  unfolding decode_node_info
  decode_node_info-Returns =
      decode_fields-Returns node_body bytes fits node_body-IsSafe no_node_info
