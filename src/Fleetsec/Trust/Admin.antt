-- ===== src/Fleetsec/Trust/Admin.antt =====
-- `SetAdminKeys` and `SetIsManaged` of internal/fleetsec/trust.go, with the look-ups in the
-- registry of identities (internal/fleetsec/service.go). Whether a push is acknowledged, and what
-- is read back after it, are arguments.

pub mod Registry
pub mod Guards
use diginode_cc.Prelude.{
  ℕ, ◌+◌, ◌*◌, Bool, true, false, not, ◌&&◌, ◌||◌, Option, none, some, List, [], ◌∷◌, ltb, ◌==◌,
  if◌then◌else◌, length, is_empty, map,
}
use diginode_cc.Prelude.Text.{codes, eq_text}
use diginode_cc.Fleetsec.Trust.{
  unknown, Fingerprint, NodeTrust, FleetPolicy, compute_drift_status, TrustTable, upsert_node_trust,
  Security, RoundTrip, failed, no_security, answered, VerifyMethod, method_for, verified_record,
}

pub data IdentityRole : Type 0 where
  primary rescue operator revoked : IdentityRole

-- `IdentityRecord`, without its label, source and times.
pub record IdentityRecord : Type 0 where
  pub public_key : List ℕ
  pub fingerprint : Fingerprint
  pub role : IdentityRole

abbrev pub is_revoked : IdentityRole → Bool
is_revoked revoked = true
is_revoked _ = false

-- `known[fp]`
abbrev pub is_known : List IdentityRecord → Fingerprint → Bool
is_known [] fp = false
is_known (id ∷ ids) fp =
    let rest = is_known ids fp in eq_text id.fingerprint fp && not (is_revoked id.role) || rest

unfoldable pub pick_known_fingerprints : List IdentityRecord → List Fingerprint → List Fingerprint
pick_known_fingerprints ids [] = []
pick_known_fingerprints ids (fp ∷ fps) =
    let rest = pick_known_fingerprints ids fps in if is_known ids fp then fp ∷ rest else rest

-- `GetIdentityByFingerprint`
abbrev pub get_identity_by_fingerprint : Fingerprint → List IdentityRecord → Option IdentityRecord
get_identity_by_fingerprint fp [] = none
get_identity_by_fingerprint fp (id ∷ ids) =
    let rest = get_identity_by_fingerprint fp ids in
    if eq_text id.fingerprint fp then some id else rest

abbrev pub cons_key : Option IdentityRecord → Option (List (List ℕ)) → Option (List (List ℕ))
cons_key none keys = none
cons_key (some id) none = none
cons_key (some id) (some keys) = some (id.public_key ∷ keys)

unfoldable pub pubkeys_for_fingerprints :
    List IdentityRecord → List Fingerprint → Option (List (List ℕ))
pubkeys_for_fingerprints ids [] = some []
pubkeys_for_fingerprints ids (fp ∷ fps) =
    cons_key (get_identity_by_fingerprint fp ids) (pubkeys_for_fingerprints ids fps)

-- `SecurityConfigUpdate`, as far as these two set it.
pub data Update : Type 0 where
  admin_keys_update : List (List ℕ) → Update
  is_managed_update : Bool → Update

-- An update that is sent to a node, over the cable to the local one and over the mesh to others.
pub record Push : Type 0 where
  pub node : ℕ
  pub method : VerifyMethod
  pub update : Update

pub data AdminError : Type 0 where
  zero_node too_many_keys registry_failed lockout_prevented invalid_ack not_registered
        managed_lockdown_prevented read_failed push_failed :
      AdminError

pub record Result : Type 0 where
  pub pushes : List Push
  pub table : TrustTable
  pub error : Option AdminError

abbrev pub refuse : AdminError → TrustTable → Result
refuse e table = record { pushes = []; table = table; error = some e }

-- `SetAdminKeysOpts` and `SetIsManagedOpts`
pub record Opts : Type 0 where
  pub force : Bool
  pub ack : List ℕ

-- What a call is given besides its arguments: the time, the number of the local node, the trust
-- table and the policy, and what the radio does.
pub record Env : Type 0 where
  pub now : ℕ
  pub local_num : ℕ
  pub table : TrustTable
  pub policy : Option FleetPolicy
  pub acknowledged : Bool
  pub read_back : RoundTrip

-- What `GetNodeTrust` gives: a row, no row, or an error.
pub data TrustRead : Type 0 where
  row : NodeTrust → TrustRead
  not_found read_error : TrustRead

-- `24*time.Hour`
abbrev pub verify_window : ℕ
verify_window = 86400000000000

-- `current.LastVerifiedAt == nil || time.Since(*current.LastVerifiedAt) > 24*time.Hour`
abbrev pub is_old : ℕ → Option ℕ → Bool
is_old now none = true
is_old now (some at) = ltb (at + verify_window) now

module _ (fingerprint : List ℕ → Fingerprint) (env : Env) where
  locked_record : ℕ → Security → Option FleetPolicy → NodeTrust
  unfolding compute_drift_status
  locked_record node sec none = verified_record fingerprint env.now env.local_num node sec
  locked_record node sec (some p) =
      let rec = verified_record fingerprint env.now env.local_num node sec in
      record rec { drift_status = compute_drift_status rec (some p) }

  -- `getTrustLocked`
  unfoldable pub get_trust_locked : ℕ → RoundTrip → TrustTable → TrustTable × Bool
  unfolding upsert_node_trust locked_record
  get_trust_locked node failed table = (table, false)
  get_trust_locked node no_security table = (table, false)
  get_trust_locked node (answered sec) table =
      (upsert_node_trust node (locked_record node sec env.policy) table, true)

  abbrev pub push : ℕ → Update → Push
  push node update = record { node = node; method = method_for env.local_num node; update = update }

  -- The push of the keys, and the read behind it.
  pub push_keys : ℕ → Option (List (List ℕ)) → Result
  unfolding get_trust_locked
  push_keys node none = refuse not_registered env.table
  push_keys node (some keys) =
      let pushed = push node (admin_keys_update keys) ∷ [] in
      if env.acknowledged
      then record {
        pushes = pushed;
        table = (get_trust_locked node env.read_back env.table).0;
        error = none;
      }
      else record { pushes = pushed; table = env.table; error = some push_failed }

  -- The guard against a lock-out.
  pub guard_keys : ℕ → List Fingerprint → Opts → List IdentityRecord → Result
  unfolding pick_known_fingerprints pubkeys_for_fingerprints push_keys
  guard_keys node fps opts ids =
      if is_empty (pick_known_fingerprints ids fps) && not opts.force
      then refuse lockout_prevented env.table
      else if is_empty (pick_known_fingerprints ids fps) && not (eq_text opts.ack (codes "LOCKOUT"))
      then refuse invalid_ack env.table
      else push_keys node (pubkeys_for_fingerprints ids fps)

  pub with_registry : ℕ → List Fingerprint → Opts → Option (List IdentityRecord) → Result
  unfolding guard_keys
  with_registry node fps opts none = refuse registry_failed env.table
  with_registry node fps opts (some ids) = guard_keys node fps opts ids

  -- `SetAdminKeys`; the registry is `none` if it cannot be read.
  unfoldable pub set_admin_keys :
      ℕ → List Fingerprint → Opts → Option (List IdentityRecord) → Result
  unfolding with_registry
  set_admin_keys node fps opts ids =
      if node == 0
      then refuse zero_node env.table
      else if ltb 3 (length fps)
      then refuse too_many_keys env.table
      else with_registry node fps opts ids

  pub push_managed : ℕ → Bool → Result
  push_managed node value = record {
    pushes = push node (is_managed_update value) ∷ [];
    table = env.table;
    error = if env.acknowledged then none else some push_failed;
  }

  pub guard_managed : ℕ → Opts → Bool → Result
  unfolding push_managed
  guard_managed node opts old =
      if old && not opts.force
      then refuse managed_lockdown_prevented env.table
      else if opts.force && not (eq_text opts.ack (codes "LOCKDOWN"))
      then refuse invalid_ack env.table
      else push_managed node true

  pub lock_down : ℕ → Opts → TrustRead → Result
  unfolding guard_managed
  lock_down node opts read_error = refuse read_failed env.table
  lock_down node opts not_found = guard_managed node opts true
  lock_down node opts (row n) = guard_managed node opts (is_old env.now n.last_verified_at)

  -- `SetIsManaged`
  unfoldable pub set_is_managed : ℕ → Bool → Opts → TrustRead → Result
  unfolding lock_down push_managed
  set_is_managed node value opts read =
      if node == 0
      then refuse zero_node env.table
      else if value
      then lock_down node opts read
      else push_managed node false
