-- ===== src/Fleetsec/Trust/Meets.antt =====
-- When a node meets the policy of the fleet (internal/fleetsec/trust.go).
use mathlib.Core.List.{Memᴰ}
use diginode_cc.Prelude.{
  ◌≡◌, ◌↔◌, refl, sym, ap, ◌∙◌, Bool, true, false, some, List, [], ◌∷◌, Bool-cases, inl, inr, All,
  arith,
}
use diginode_cc.Prelude.Text.{eq_text, eq_text_self, eq_text_sound}
use diginode_cc.Fleetsec.Trust.{
  DriftStatus, in_policy, Fingerprint, NodeTrust, FleetPolicy, has_fp, has_all, same_bool,
  against_policy,
}

has_fp-Memᴰ : (fp : Fingerprint) (got : List Fingerprint) → has_fp fp got ≡ true → Memᴰ fp got
has_fp-Memᴰ fp [] h = cc
has_fp-Memᴰ fp (g ∷ gs) h = elim (Bool-cases (eq_text g fp)) [
  | inl e ↦ Memᴰ.head (sym (eq_text_sound g fp e))
  | inr e ↦ Memᴰ.tail (has_fp-Memᴰ fp gs (rw e at h))
]

Memᴰ-has_fp : (fp : Fingerprint) (got : List Fingerprint) → Memᴰ fp got → has_fp fp got ≡ true
Memᴰ-has_fp fp [] m = elim m [ ]
Memᴰ-has_fp fp (g ∷ gs) (Memᴰ.head e) = rw (ap (λ x. eq_text x fp) (sym e) ∙ eq_text_self fp) refl
Memᴰ-has_fp fp (g ∷ gs) (Memᴰ.tail m) = ground (arith, Memᴰ-has_fp fp gs m)

-- Every fingerprint of the first list is in the second.
abbrev pub AreAmong : List Fingerprint → List Fingerprint → Type 0
AreAmong wants got = All (λ want. Memᴰ want got) wants

has_all-AreAmong : (wants got : List Fingerprint) → has_all wants got ≡ true → AreAmong wants got
has_all-AreAmong [] got h = tt
has_all-AreAmong (want ∷ wants) got h =
    (has_fp-Memᴰ want got (ground arith), has_all-AreAmong wants got (ground arith))

AreAmong-has_all : (wants got : List Fingerprint) → AreAmong wants got → has_all wants got ≡ true
AreAmong-has_all [] got h = refl
AreAmong-has_all (want ∷ wants) got (m, ms) =
    ground (arith, Memᴰ-has_fp want got m, AreAmong-has_all wants got ms)

same_bool-eq : (b c : Bool) → same_bool b c ≡ true → b ≡ c
same_bool-eq true c h = sym h
same_bool-eq false true h = cc
same_bool-eq false false h = refl

same_bool_self : (b : Bool) → same_bool b b ≡ true
same_bool_self true = refl
same_bool_self false = refl

-- The node is managed as the policy says, and has all its keys.
abbrev pub Meets : FleetPolicy → NodeTrust → Type 0
Meets p n =
    (p.expected_is_managed ≡ n.is_managed) × AreAmong p.expected_admin_key_fps n.admin_key_fps

is_in_policy : DriftStatus → Bool
is_in_policy in_policy = true
is_in_policy _ = false

pub against_policy_iff :
    (n : NodeTrust) (p : FleetPolicy) → (against_policy n (some p) ≡ in_policy) ↔ Meets p n
unfolding against_policy is_in_policy
against_policy_iff n p = elim (Bool-cases (same_bool p.expected_is_managed n.is_managed)) [
  | inl e ↦ elim (Bool-cases (has_all p.expected_admin_key_fps n.admin_key_fps)) [
    | inl k ↦
        rw (e, k)
          (
            (λ h. (
              same_bool-eq p.expected_is_managed n.is_managed e,
              has_all-AreAmong p.expected_admin_key_fps n.admin_key_fps k,
            )),
            λ m. refl,
          )
    | inr k ↦
        rw (e, k)
          (
            (λ h. absurd (grind (arith, ap is_in_policy h))),
            λ m.
                absurd
                  (grind (arith, k, AreAmong-has_all p.expected_admin_key_fps n.admin_key_fps m.1)),
          )
  ]
  | inr e ↦ rw e (
    (λ h. absurd (grind (arith, ap is_in_policy h))),
    λ m. absurd (
        grind (
          arith,
          e,
          ap (same_bool p.expected_is_managed) (sym m.0) ∙ same_bool_self p.expected_is_managed,
        )),
  )
]
