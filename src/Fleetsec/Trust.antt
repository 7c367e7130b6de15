-- ===== src/Fleetsec/Trust.antt =====
-- The trust roster of internal/fleetsec/trust.go, over the table `fleet_node_trust`
-- (internal/fleetsec/store.go), a map from the numbers of nodes. What a round trip to a node gives
-- is an argument, the fingerprint of a key a parameter, and so are the rows that other tables give.
-- The pushes to the radio are a list. Errors of the database are left out where no argument says
-- so, and the audit log is.

pub mod Meets
pub mod Drift
pub mod Admin
mod Runs
use diginode_cc.Prelude.{
  ℕ, ◌+◌, ◌*◌, Bool, true, false, not, ◌&&◌, ◌||◌, Option, none, some, List, [], ◌∷◌, ltb, leb,
  ◌==◌, if◌then◌else◌, length, is_empty, map,
}
use diginode_cc.Prelude.Assoc.{lookup, put}
use diginode_cc.Prelude.Text.{codes, eq_text}

pub data DriftStatus : Type 0 where
  unknown in_policy drift unreachable : DriftStatus

pub data VerifyMethod : Type 0 where
  local_usb remote_pkc : VerifyMethod

abbrev pub Fingerprint : Type 0
Fingerprint = List ℕ

-- `NodeTrustRecord`, without the columns of other tables and those of the recovery.
pub record NodeTrust : Type 0 where
  pub admin_key_fps : List Fingerprint
  pub is_managed : Bool
  pub last_verified_at : Option ℕ
  pub last_verify_method : Option VerifyMethod
  pub last_drift_check_at : Option ℕ
  pub drift_status : DriftStatus
  pub current_psk_fp : Fingerprint

-- A row with the defaults of its columns.
abbrev pub no_trust : NodeTrust
no_trust = record {
  admin_key_fps = [];
  is_managed = false;
  last_verified_at = none;
  last_verify_method = none;
  last_drift_check_at = none;
  drift_status = unknown;
  current_psk_fp = [];
}

pub record FleetPolicy : Type 0 where
  pub expected_admin_key_fps : List Fingerprint
  pub expected_is_managed : Bool

-- `got[want]`
abbrev pub has_fp : Fingerprint → List Fingerprint → Bool
has_fp fp [] = false
has_fp fp (g ∷ gs) = let rest = has_fp fp gs in eq_text g fp || rest

abbrev pub has_all : List Fingerprint → List Fingerprint → Bool
has_all [] got = true
has_all (want ∷ wants) got = let rest = has_all wants got in has_fp want got && rest

abbrev pub same_bool : Bool → Bool → Bool
same_bool true b = b
same_bool false b = not b

abbrev pub is_unreachable : DriftStatus → Bool
is_unreachable unreachable = true
is_unreachable _ = false

-- What follows the tests on the record.
pub against_policy : NodeTrust → Option FleetPolicy → DriftStatus
against_policy n none = in_policy
against_policy n (some p) =
    if not (same_bool p.expected_is_managed n.is_managed)
    then drift
    else if has_all p.expected_admin_key_fps n.admin_key_fps
    then in_policy
    else drift

pub verified_status : NodeTrust → Option ℕ → Option FleetPolicy → DriftStatus
unfolding against_policy
verified_status n none p = unknown
verified_status n (some at) p = against_policy n p

unfoldable pub compute_drift_status : NodeTrust → Option FleetPolicy → DriftStatus
unfolding verified_status
compute_drift_status n p =
    if is_unreachable n.drift_status then unreachable else verified_status n n.last_verified_at p

abbrev pub TrustTable : Type 0
TrustTable = List (ℕ × NodeTrust)

-- `COALESCE(a, b)`
abbrev pub coalesce {ℓ} : {A : Type ℓ} → Option A → Option A → Option A
coalesce none b = b
coalesce (some a) b = some a

abbrev pub row_or : NodeTrust → Option NodeTrust → NodeTrust
row_or default none = default
row_or default (some old) = old

-- `UpsertNodeTrust`
unfoldable pub upsert_node_trust : ℕ → NodeTrust → TrustTable → TrustTable
upsert_node_trust node r table =
    let old = row_or no_trust (lookup node table) in
    put node
      (record {
        admin_key_fps = r.admin_key_fps;
        is_managed = r.is_managed;
        last_verified_at = coalesce r.last_verified_at old.last_verified_at;
        last_verify_method = coalesce r.last_verify_method old.last_verify_method;
        last_drift_check_at = coalesce r.last_drift_check_at old.last_drift_check_at;
        drift_status = r.drift_status;
        current_psk_fp = old.current_psk_fp;
      })
      table

-- `MarkNodeUnreachable`
unfoldable pub mark_node_unreachable : ℕ → ℕ → TrustTable → TrustTable
mark_node_unreachable node at table =
    put node
      (record (row_or no_trust (lookup node table)) {
        last_drift_check_at = some at;
        drift_status = unreachable;
      })
      table

pub stamped : ℕ → Fingerprint → Option NodeTrust → TrustTable → TrustTable
stamped node fp none table = table
stamped node fp (some row) table = put node (record row { current_psk_fp = fp }) table

-- `SetNodeCurrentPSKFP`
unfoldable pub set_node_current_psk_fp : ℕ → Fingerprint → TrustTable → TrustTable
unfolding stamped
set_node_current_psk_fp node fp table =
    if is_empty fp then table else stamped node fp (lookup node table) table

-- The part of a `SecurityConfig` that is read.
pub record Security : Type 0 where
  pub admin_keys : List (List ℕ)
  pub managed : Bool

-- What a round trip gives: an error, an answer without a security configuration, or one.
pub data RoundTrip : Type 0 where
  failed no_security : RoundTrip
  answered : Security → RoundTrip

-- `local != 0 && nodeNum == local`
abbrev pub method_for : ℕ → ℕ → VerifyMethod
method_for local node = if not (local == 0) && node == local then local_usb else remote_pkc

module _ (fingerprint : List ℕ → Fingerprint) where
  -- The record that is made of an answer.
  abbrev pub verified_record : ℕ → ℕ → ℕ → Security → NodeTrust
  verified_record now local node sec = record no_trust {
    admin_key_fps = map fingerprint sec.admin_keys;
    is_managed = sec.managed;
    last_verified_at = some now;
    last_verify_method = some (method_for local node);
    last_drift_check_at = some now;
  }

  -- `GetTrust` up to its last query: the table, and false for an error. The policy is `none` if it
  -- cannot be read, and `psk_fp` is what `localPrimaryPSKFP` gives.
  pub with_policy :
      ℕ → ℕ → ℕ → Security → Option FleetPolicy → Fingerprint → TrustTable → TrustTable × Bool
  unfolding upsert_node_trust set_node_current_psk_fp compute_drift_status
  with_policy now local node sec none psk_fp table = (table, false)
  with_policy now local node sec (some p) psk_fp table =
      let rec = verified_record now local node sec in
      (
        set_node_current_psk_fp node psk_fp (
            upsert_node_trust node (record rec { drift_status = compute_drift_status rec (some p) })
              table),
        true,
      )

  pub on_reply :
      ℕ → ℕ → ℕ → RoundTrip → Option FleetPolicy → Fingerprint → TrustTable → TrustTable × Bool
  unfolding with_policy mark_node_unreachable
  on_reply now local node failed p psk_fp table = (mark_node_unreachable node now table, false)
  on_reply now local node no_security p psk_fp table = (table, false)
  on_reply now local node (answered sec) p psk_fp table =
      with_policy now local node sec p psk_fp table

  unfoldable pub get_trust :
      ℕ → ℕ → ℕ → RoundTrip → Option FleetPolicy → Fingerprint → TrustTable → TrustTable × Bool
  unfolding on_reply
  get_trust now local node reply p psk_fp table =
      if node == 0 then (table, false) else on_reply now local node reply p psk_fp table

-- `ListTrust`
unfoldable pub list_trust : Option FleetPolicy → TrustTable → TrustTable
unfolding compute_drift_status
list_trust p [] = []
list_trust p ((node, row) ∷ rows) =
    (node, record row { drift_status = compute_drift_status row p }) ∷ list_trust p rows
