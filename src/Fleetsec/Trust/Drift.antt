-- ===== src/Fleetsec/Trust/Drift.antt =====
-- What `GetTrust` makes of a row of the roster (internal/fleetsec/trust.go).
use mathlib.Core.Path.{subst}
use diginode_cc.Prelude.{
  ℕ, ◌≡◌, ◌≢◌, ◌↔◌, refl, sym, ap, ◌∙◌, Bool, false, Option, none, some, List, map, ◌==◌,
  if◌then◌else◌, if-both, Bool-cases, inl, inr, is_empty, arith,
}
use diginode_cc.Prelude.Assoc.{lookup, put, same_key, lookup-put, lookup-put_other}
use diginode_cc.Fleetsec.Trust.{
  in_policy, unreachable, Fingerprint, NodeTrust, no_trust, FleetPolicy, verified_status,
  compute_drift_status, TrustTable, row_or, upsert_node_trust, mark_node_unreachable, stamped,
  set_node_current_psk_fp, Security, RoundTrip, failed, no_security, answered, verified_record,
  with_policy, on_reply, get_trust,
}
use diginode_cc.Fleetsec.Trust.Meets.{AreAmong, against_policy_iff}

-- The row of a node, or the one that it has before its first check.
abbrev pub row_of : ℕ → TrustTable → NodeTrust
row_of node table = row_or no_trust (lookup node table)

-- What a stamp leaves of a row.
abbrev SameTrust : NodeTrust → NodeTrust → Type 0
SameTrust n m =
    (m.admin_key_fps ≡ n.admin_key_fps)
    × (m.is_managed ≡ n.is_managed)
    × (m.last_verified_at ≡ n.last_verified_at)
    × (m.drift_status ≡ n.drift_status)

put-row : (node : ℕ) (n : NodeTrust) (table : TrustTable) → row_of node (put node n table) ≡ n
put-row node n table = ap (row_or no_trust) (lookup-put node n table)

stamped-SameTrust :
    (node : ℕ) (fp : Fingerprint) (o : Option NodeTrust) (table : TrustTable)
    → lookup node table ≡ o
    → SameTrust (row_of node table) (row_of node (stamped node fp o table))
unfolding stamped
stamped-SameTrust node fp none table e = (refl, refl, refl, refl)
stamped-SameTrust node fp (some row) table e =
    rw (e, lookup-put node (record row { current_psk_fp = fp }) table) (refl, refl, refl, refl)

stamp-SameTrust :
    (node : ℕ) (fp : Fingerprint) (table : TrustTable)
    → SameTrust (row_of node table) (row_of node (set_node_current_psk_fp node fp table))
unfolding set_node_current_psk_fp
stamp-SameTrust node fp table = elim (Bool-cases (is_empty fp)) [
  | inl e ↦ rw e (refl, refl, refl, refl)
  | inr e ↦ rw e (stamped-SameTrust node fp (lookup node table) table refl)
]

stamped-other :
    (node other : ℕ) (fp : Fingerprint) (o : Option NodeTrust) (table : TrustTable)
    → other ≢ node
    → lookup other (stamped node fp o table) ≡ lookup other table
unfolding stamped
stamped-other node other fp none table h = refl
stamped-other node other fp (some row) table h =
    lookup-put_other other node (record row { current_psk_fp = fp }) table h

stamp-other :
    (node other : ℕ) (fp : Fingerprint) (table : TrustTable)
    → other ≢ node
    → lookup other (set_node_current_psk_fp node fp table) ≡ lookup other table
unfolding set_node_current_psk_fp
stamp-other node other fp table h = elim (Bool-cases (is_empty fp)) [
  | inl e ↦ rw e refl
  | inr e ↦ rw e (stamped-other node other fp (lookup node table) table h)
]

module _ (fingerprint : List ℕ → Fingerprint) (now local node : ℕ) (p : FleetPolicy)
    (psk_fp : Fingerprint) (table : TrustTable) where
  abbrev pub after : RoundTrip → TrustTable
  after reply = (get_trust fingerprint now local node reply (some p) psk_fp table).0

  -- A node that did not answer is shown as unreachable, with what was known of it.
  abbrev pub Unreached : NodeTrust → NodeTrust → Type 0
  Unreached n m =
      (m.drift_status ≡ unreachable)
      × (m.admin_key_fps ≡ n.admin_key_fps)
      × (m.is_managed ≡ n.is_managed)
      × (m.last_verified_at ≡ n.last_verified_at)

  -- A node that answered is shown with what it answered, and as in policy just if that meets it.
  abbrev pub Verified : Security → NodeTrust → Type 0
  Verified sec m =
      (m.admin_key_fps ≡ map fingerprint sec.admin_keys)
      × (m.is_managed ≡ sec.managed)
      × (m.last_verified_at ≡ some now)
      × ((m.drift_status ≡ in_policy) ↔ (
          (p.expected_is_managed ≡ sec.managed)
          × AreAmong p.expected_admin_key_fps (map fingerprint sec.admin_keys)))

  -- What a call for a node whose number is not 0 comes to.
  on_reply-get_trust :
      (P : TrustTable → Type 0) (reply : RoundTrip)
      → node ≢ 0
      → P (on_reply fingerprint now local node reply (some p) psk_fp table).0
      → P (after reply)
  unfolding get_trust
  on_reply-get_trust P reply known h = elim (Bool-cases (node == 0)) [
    | inl e ↦ absurd (ground arith)
    | inr e ↦
        subst
          (λ b.
            P
              (if b
                then (table, false)
                else on_reply fingerprint now local node reply (some p) psk_fp table).0)
          (sym e) h
  ]

  failed-Unreached : node ≢ 0 → Unreached (row_of node table) (row_of node (after failed))
  unfolding on_reply mark_node_unreachable
  failed-Unreached known =
      on_reply-get_trust (λ t. Unreached (row_of node table) (row_of node t)) failed known
        (rw (same_key node) (refl, refl, refl, refl))

  answered-Verified :
      (sec : Security) → node ≢ 0 → Verified sec (row_of node (after (answered sec)))
  unfolding on_reply with_policy upsert_node_trust compute_drift_status verified_status
  answered-Verified sec known =
      let rec : NodeTrust = verified_record fingerprint now local node sec in
      let upserted : TrustTable =
        upsert_node_trust node (record rec { drift_status = compute_drift_status rec (some p) })
          table in
      let (keys, managed, at, status) = stamp-SameTrust node psk_fp upserted in
      let row = put-row node _ table in
      on_reply-get_trust (λ t. Verified sec (row_of node t)) (answered sec) known
        (
          keys ∙ ap (λ n. n.admin_key_fps) row,
          managed ∙ ap (λ n. n.is_managed) row,
          at ∙ ap (λ n. n.last_verified_at) row,
          rw (status ∙ ap (λ n. n.drift_status) row) (against_policy_iff rec p),
        )

  get_trust-other :
      (reply : RoundTrip) (other : ℕ)
      → other ≢ node
      → lookup other (after reply) ≡ lookup other table
  unfolding get_trust on_reply with_policy mark_node_unreachable upsert_node_trust
  get_trust-other failed other h =
      if-both {A = TrustTable × Bool} (λ r. lookup other r.0 ≡ lookup other table) (node == 0) _ _
        refl (lookup-put_other other node _ table h)
  get_trust-other no_security other h =
      if-both {A = TrustTable × Bool} (λ r. lookup other r.0 ≡ lookup other table) (node == 0) _ _
        refl refl
  get_trust-other (answered sec) other h =
      if-both {A = TrustTable × Bool} (λ r. lookup other r.0 ≡ lookup other table) (node == 0) _ _
        refl (stamp-other node other psk_fp _ h ∙ lookup-put_other other node _ table h)

  -- `GetTrust`, with a policy that can be read and for a node whose number is not 0. If the node
  -- does not answer, its row says that it is unreachable, and the keys, the flag and the time of
  -- the last answer stay. If it answers with a security configuration, its row has the
  -- fingerprints of the keys, the flag and the time of that, and says that the node is in policy
  -- just if the flag is the expected one and every expected key is among them, whatever it said
  -- before. The row of every other node stays, whatever happens.
  pub get_trust-row :
      node ≢ 0
      → Unreached (row_of node table) (row_of node (after failed))
        × ((sec : Security) → Verified sec (row_of node (after (answered sec))))
        × ((reply : RoundTrip) (other : ℕ)
            → other ≢ node
            → lookup other (after reply) ≡ lookup other table)
  get_trust-row known =
      (failed-Unreached known, λ sec. answered-Verified sec known, get_trust-other)
