-- ===== src/Fleetsec/Trust/Admin/Registry.antt =====
-- What the look-ups in the registry of identities find (internal/fleetsec/service.go).
use mathlib.Core.List.{Memᴰ}
use diginode_cc.Prelude.{
  ℕ, ◌≡◌, refl, sym, ap, ◌∙◌, Bool, true, false, not, ◌&&◌, Option, none, some, List, [], ◌∷◌,
  Bool-cases, inl, inr, All, is_empty, arith,
}
use diginode_cc.Prelude.Text.{eq_text, eq_text_self, eq_text_sound}
use diginode_cc.Fleetsec.Trust.{Fingerprint}
use diginode_cc.Fleetsec.Trust.Admin.{
  IdentityRecord, is_revoked, is_known, pick_known_fingerprints, get_identity_by_fingerprint,
  cons_key, pubkeys_for_fingerprints,
}

-- The registry has an identity with that fingerprint, and one that is not revoked.
abbrev pub IsRegistered : List IdentityRecord → Fingerprint → Type 0
IsRegistered ids fp = (id : IdentityRecord) × Memᴰ id ids × (id.fingerprint ≡ fp)

abbrev pub IsActive : List IdentityRecord → Fingerprint → Type 0
IsActive ids fp =
    (id : IdentityRecord) × Memᴰ id ids × (id.fingerprint ≡ fp) × (is_revoked id.role ≡ false)

is_known-IsActive :
    (ids : List IdentityRecord) (fp : Fingerprint) → is_known ids fp ≡ true → IsActive ids fp
is_known-IsActive [] fp h = cc
is_known-IsActive (id ∷ ids) fp h =
    elim (Bool-cases (eq_text id.fingerprint fp && not (is_revoked id.role))) [
      | inl e ↦ (id, Memᴰ.head refl, eq_text_sound id.fingerprint fp (ground arith), ground arith)
      | inr e ↦
          let (q, m, same, role) = is_known-IsActive ids fp (rw e at h) in
          (q, Memᴰ.tail m, same, role)
    ]

IsActive-is_known :
    (ids : List IdentityRecord) (fp : Fingerprint) → IsActive ids fp → is_known ids fp ≡ true
IsActive-is_known [] fp (id, m, same, role) = elim m [ ]
IsActive-is_known (q ∷ ids) fp (id, Memᴰ.head e, same, role) =
    let found : eq_text q.fingerprint fp ≡ true =
      ap (eq_text q.fingerprint) (sym (sym (ap (λ i. i.fingerprint) e) ∙ same))
      ∙ eq_text_self q.fingerprint in
    let kept : is_revoked q.role ≡ false = sym (ap (λ i. is_revoked i.role) e) ∙ role in
    rw (found, kept) refl
IsActive-is_known (q ∷ ids) fp (id, Memᴰ.tail m, same, role) =
    ground (arith, IsActive-is_known ids fp (id, m, same, role))

-- A fingerprint of the list belongs to an identity that is not revoked.
abbrev pub SomeActive : List IdentityRecord → List Fingerprint → Type 0
SomeActive ids fps = (fp : Fingerprint) × Memᴰ fp fps × IsActive ids fp

pub picked-SomeActive :
    (ids : List IdentityRecord) (fps : List Fingerprint)
    → is_empty (pick_known_fingerprints ids fps) ≡ false
    → SomeActive ids fps
unfolding pick_known_fingerprints
picked-SomeActive ids [] h = cc
picked-SomeActive ids (fp ∷ fps) h = elim (Bool-cases (is_known ids fp)) [
  | inl e ↦ (fp, Memᴰ.head refl, is_known-IsActive ids fp e)
  | inr e ↦ let (g, m, active) = picked-SomeActive ids fps (rw e at h) in (g, Memᴰ.tail m, active)
]

pub SomeActive-picked :
    (ids : List IdentityRecord) (fps : List Fingerprint)
    → SomeActive ids fps
    → is_empty (pick_known_fingerprints ids fps) ≡ false
unfolding pick_known_fingerprints
SomeActive-picked ids [] (g, m, active) = elim m [ ]
SomeActive-picked ids (fp ∷ fps) (g, Memᴰ.head e, active) =
    rw (ap (is_known ids) (sym e) ∙ IsActive-is_known ids g active) refl
SomeActive-picked ids (fp ∷ fps) (g, Memᴰ.tail m, active) =
    let rest = SomeActive-picked ids fps (g, m, active) in
    elim (Bool-cases (is_known ids fp)) [ inl e ↦ rw e refl | inr e ↦ rw e rest ]

abbrev pub found {ℓ} : {A : Type ℓ} → Option A → Bool
found none = false
found (some a) = true

found-IsRegistered :
    (fp : Fingerprint) (ids : List IdentityRecord)
    → found (get_identity_by_fingerprint fp ids) ≡ true
    → IsRegistered ids fp
found-IsRegistered fp [] h = cc
found-IsRegistered fp (id ∷ ids) h = elim (Bool-cases (eq_text id.fingerprint fp)) [
  | inl e ↦ (id, Memᴰ.head refl, eq_text_sound id.fingerprint fp e)
  | inr e ↦ let (q, m, same) = found-IsRegistered fp ids (rw e at h) in (q, Memᴰ.tail m, same)
]

IsRegistered-found :
    (fp : Fingerprint) (ids : List IdentityRecord)
    → IsRegistered ids fp
    → found (get_identity_by_fingerprint fp ids) ≡ true
IsRegistered-found fp [] (id, m, same) = elim m [ ]
IsRegistered-found fp (q ∷ ids) (id, Memᴰ.head e, same) =
    let hit : eq_text q.fingerprint fp ≡ true =
      ap (eq_text q.fingerprint) (sym (sym (ap (λ i. i.fingerprint) e) ∙ same))
      ∙ eq_text_self q.fingerprint in
    rw hit refl
IsRegistered-found fp (q ∷ ids) (id, Memᴰ.tail m, same) =
    let rest = IsRegistered-found fp ids (id, m, same) in
    elim (Bool-cases (eq_text q.fingerprint fp)) [ inl e ↦ rw e refl | inr e ↦ rw e rest ]

cons_key-found :
    (o : Option IdentityRecord) (keys : Option (List (List ℕ)))
    → found (cons_key o keys) ≡ found o && found keys
cons_key-found none keys = refl
cons_key-found (some id) none = refl
cons_key-found (some id) (some keys) = refl

pub pubkeys-AreRegistered :
    (ids : List IdentityRecord) (fps : List Fingerprint)
    → found (pubkeys_for_fingerprints ids fps) ≡ true
    → All (IsRegistered ids) fps
unfolding pubkeys_for_fingerprints
pubkeys-AreRegistered ids [] h = tt
pubkeys-AreRegistered ids (fp ∷ fps) h =
    let both =
      sym (cons_key-found (get_identity_by_fingerprint fp ids) (pubkeys_for_fingerprints ids fps))
      ∙ h in
    (
      found-IsRegistered fp ids (ground (arith, both)),
      pubkeys-AreRegistered ids fps (ground (arith, both)),
    )

pub AreRegistered-pubkeys :
    (ids : List IdentityRecord) (fps : List Fingerprint)
    → All (IsRegistered ids) fps
    → found (pubkeys_for_fingerprints ids fps) ≡ true
unfolding pubkeys_for_fingerprints
AreRegistered-pubkeys ids [] h = refl
AreRegistered-pubkeys ids (fp ∷ fps) (r, rs) =
    let first = IsRegistered-found fp ids r in
    let rest = AreRegistered-pubkeys ids fps rs in
    cons_key-found (get_identity_by_fingerprint fp ids) (pubkeys_for_fingerprints ids fps)
    ∙ rw (first, rest) refl
