-- ===== src/Fleetsec/Trust/Runs.antt =====
-- Runs of the trust roster, over a toy fingerprint, and the theorems on them.
use diginode_cc.Prelude.{
  ℕ, ◌≤◌, ◌≡◌, ◌≢◌, ◌↔◌, refl, true, false, some, List, [], ◌∷◌, length, arith,
}
use diginode_cc.Prelude.Assoc.{lookup}
use diginode_cc.Fleetsec.Trust.{
  Fingerprint, NodeTrust, no_trust, in_policy, FleetPolicy, TrustTable, Security, RoundTrip, failed,
  answered, compute_drift_status,
}
use diginode_cc.Fleetsec.Trust.Drift.{Unreached, Verified, after, row_of, get_trust-row}
use diginode_cc.Fleetsec.Trust.Admin.{
  IdentityRecord, operator, Opts, Env, set_admin_keys, set_is_managed, row,
}
use diginode_cc.Fleetsec.Trust.Admin.Guards.{
  IsSent, IsFlagSentIf, KeysAllowed, LockdownAllowed, set_admin_keys_iff, set_is_managed_iff,
}

-- A key is its own fingerprint.
abbrev fingerprint : List ℕ → Fingerprint
fingerprint key = key

abbrev policy : FleetPolicy
policy = record { expected_admin_key_fps = (7 ∷ []) ∷ []; expected_is_managed = true }

abbrev verified : NodeTrust
verified = record no_trust {
  admin_key_fps = (9 ∷ []) ∷ (7 ∷ []) ∷ [];
  is_managed = true;
  last_verified_at = some 50;
}

abbrev table : TrustTable
table = (8, verified) ∷ []

verified_is_in_policy : compute_drift_status verified (some policy) ≡ in_policy
unfolding compute_drift_status
verified_is_in_policy = refl

get_trust-row_example :
    Unreached fingerprint 100 4 8 policy [] table
      (row_of 8 table)
      (row_of 8 (after fingerprint 100 4 8 policy [] table failed))
    × ((sec : Security)
        → Verified fingerprint 100 4 8 policy [] table sec
            (row_of 8 (after fingerprint 100 4 8 policy [] table (answered sec))))
    × ((reply : RoundTrip) (other : ℕ)
        → other ≢ 8
        → lookup other (after fingerprint 100 4 8 policy [] table reply) ≡ lookup other table)
get_trust-row_example = get_trust-row fingerprint 100 4 8 policy [] table (omega arith)

abbrev node : ℕ
node = 8

abbrev env : Env
env = record {
  now = 100;
  local_num = 4;
  table = table;
  policy = some policy;
  acknowledged = true;
  read_back = failed;
}

abbrev plain : Opts
plain = record { force = false; ack = [] }

abbrev registry : List IdentityRecord
registry = record { public_key = 7 ∷ []; fingerprint = 7 ∷ []; role = operator } ∷ []

key-IsSent : IsSent (set_admin_keys fingerprint env node ((7 ∷ []) ∷ []) plain (some registry))
unfolding set_admin_keys
key-IsSent = refl

set_admin_keys_iff_example :
    IsSent (set_admin_keys fingerprint env node ((7 ∷ []) ∷ []) plain (some registry)) ↔ (
      (node ≢ 0)
      × (length {A = Fingerprint} ((7 ∷ []) ∷ []) ≤ 3)
      × KeysAllowed fingerprint env ((7 ∷ []) ∷ []) plain registry)
set_admin_keys_iff_example = set_admin_keys_iff fingerprint env node ((7 ∷ []) ∷ []) plain registry

lock-IsSent : IsSent (set_is_managed fingerprint env node true plain (row verified))
unfolding set_is_managed
lock-IsSent = refl

set_is_managed_iff_example :
    IsFlagSentIf fingerprint env node true
      ((node ≢ 0) × LockdownAllowed fingerprint env plain (row verified))
      (set_is_managed fingerprint env node true plain (row verified))
    × IsFlagSentIf fingerprint env node false
        (node ≢ 0)
        (set_is_managed fingerprint env node false plain (row verified))
set_is_managed_iff_example = set_is_managed_iff fingerprint env node plain (row verified)
