-- ===== src/Fleetsec/Trust/Admin/Guards.antt =====
-- When `SetAdminKeys` and `SetIsManaged` send anything (internal/fleetsec/trust.go).
use diginode_cc.Prelude.{
  ℕ, ◌+◌, ◌≤◌, ◌≡◌, ◌≢◌, ◌↔◌, ◌⊎◌, refl, ap, ◌∙◌, Bool, true, false, Option, none, some, List, [],
  ◌∷◌, ltb, not, ◌&&◌, if-both, ◌==◌, Bool-cases, inl, inr, All, length, is_empty, arith,
}
use diginode_cc.Prelude.Text.{codes, eq_text, eq_text_self, eq_text_sound}
use diginode_cc.Fleetsec.Trust.{Fingerprint, NodeTrust, method_for}
use diginode_cc.Fleetsec.Trust.Admin.{
  IdentityRecord, pick_known_fingerprints, pubkeys_for_fingerprints, Opts, Env, Result,
  is_managed_update, push_keys, guard_keys, with_registry, set_admin_keys, verify_window, is_old,
  TrustRead, row, not_found, read_error, push_managed, guard_managed, lock_down, set_is_managed,
}
use diginode_cc.Fleetsec.Trust.Admin.Registry.{
  IsRegistered, SomeActive, picked-SomeActive, SomeActive-picked, found, pubkeys-AreRegistered,
  AreRegistered-pubkeys,
}

-- The operator forced the call, and typed the word for it.
abbrev pub IsForced : Opts → List ℕ → Type 0
IsForced opts word = (opts.force ≡ true) × (opts.ack ≡ word)

abbrev pub IsSent : Result → Type 0
IsSent r = is_empty r.pushes ≡ false

word-eq : (ack word : List ℕ) → ack ≡ word → eq_text ack word ≡ true
word-eq ack word e = ap (λ a. eq_text a word) e ∙ eq_text_self word

is_empty-nil {ℓ} : {A : Type ℓ} (xs : List A) → is_empty xs ≡ true → xs ≡ []
is_empty-nil [] e = refl
is_empty-nil (x ∷ xs) e = cc

module _ (fingerprint : List ℕ → Fingerprint) (env : Env) where
  push_keys_iff :
      (node : ℕ) (o : Option (List (List ℕ)))
      → IsSent (push_keys fingerprint env node o) ↔ (found o ≡ true)
  unfolding push_keys
  push_keys_iff node none = ((λ h. cc), λ h. cc)
  push_keys_iff node (some keys) = (
    (λ h. refl),
    λ h. elim (Bool-cases env.acknowledged) [ inl e ↦ rw e refl | inr e ↦ rw e refl ],
  )

  -- What has to hold of the list and the options.
  abbrev pub KeysAllowed : List Fingerprint → Opts → List IdentityRecord → Type 0
  KeysAllowed fps opts ids =
      (SomeActive ids fps ⊎ IsForced opts (codes "LOCKOUT")) × All (IsRegistered ids) fps

  guard_keys_iff :
      (node : ℕ) (fps : List Fingerprint) (opts : Opts) (ids : List IdentityRecord)
      → IsSent (guard_keys fingerprint env node fps opts ids) ↔ KeysAllowed fps opts ids
  unfolding guard_keys
  guard_keys_iff node fps opts ids =
      let (to, from) = push_keys_iff node (pubkeys_for_fingerprints ids fps) in
      elim (Bool-cases (is_empty (pick_known_fingerprints ids fps))) [
        | inr e ↦ rw e (
          (λ h. (inl (picked-SomeActive ids fps e), pubkeys-AreRegistered ids fps (to h))),
          λ a. from (AreRegistered-pubkeys ids fps a.1),
        )
        | inl e ↦ elim (Bool-cases opts.force) [
          | inr f ↦
              rw (e, f)
                (
                  (λ h. cc),
                  λ (a, r). elim a [
                    | inl active ↦ cc (e, SomeActive-picked ids fps active)
                    | inr forced ↦ cc (f, forced.0)
                  ],
                )
          | inl f ↦ elim (Bool-cases (eq_text opts.ack (codes "LOCKOUT"))) [
            | inl t ↦
                rw (e, f, t)
                  (
                    (λ h. (
                      inr (refl, eq_text_sound opts.ack (codes "LOCKOUT") t),
                      pubkeys-AreRegistered ids fps (to h),
                    )),
                    λ a. from (AreRegistered-pubkeys ids fps a.1),
                  )
            | inr t ↦
                rw (e, f, t)
                  (
                    (λ h. cc),
                    λ (a, r). elim a [
                      | inl active ↦ cc (e, SomeActive-picked ids fps active)
                      | inr forced ↦ cc (t, word-eq opts.ack (codes "LOCKOUT") forced.1)
                    ],
                  )
          ]
        ]
      ]

  -- `SetAdminKeys`, with a registry that can be read, sends an update just if the number of the
  -- node is not 0, the list has 3 fingerprints at most, every one of them is registered, and one
  -- of them belongs to an identity that is not revoked, or the call is forced with the word
  -- LOCKOUT.
  pub set_admin_keys_iff :
      (node : ℕ) (fps : List Fingerprint) (opts : Opts) (ids : List IdentityRecord)
      → IsSent (set_admin_keys fingerprint env node fps opts (some ids))
        ↔ ((node ≢ 0) × (length fps ≤ 3) × KeysAllowed fps opts ids)
  unfolding set_admin_keys with_registry
  set_admin_keys_iff node fps opts ids =
      let (to, from) = guard_keys_iff node fps opts ids in
      elim (Bool-cases (node == 0)) [
        | inl e ↦ rw e ((λ h. cc), λ a. absurd (grind (arith, e, a.0)))
        | inr e ↦ elim (Bool-cases (ltb 3 (length fps))) [
          | inl l ↦ rw (e, l) ((λ h. cc), λ a. absurd (grind (arith, l, a.1)))
          | inr l ↦ rw (e, l) ((λ h. (grind (arith, e), grind (arith, l), to h)), λ a. from a.2)
        ]
      ]

  -- The last answer of the node is not older than a day.
  abbrev pub IsRecent : NodeTrust → Type 0
  IsRecent n = (at : ℕ) × (n.last_verified_at ≡ some at) × (env.now ≤ at + verify_window)

  -- What has to hold of the row and the options.
  abbrev pub LockdownAllowed : Opts → TrustRead → Type 0
  LockdownAllowed opts read_error = ⊥
  LockdownAllowed opts not_found = IsForced opts (codes "LOCKDOWN")
  LockdownAllowed opts (row n) =
      IsForced opts (codes "LOCKDOWN") ⊎ (IsRecent n × (opts.force ≡ false))

  recent :
      (o : Option ℕ)
      → is_old env.now o ≡ false
      → (at : ℕ) × (o ≡ some at) × (env.now ≤ at + verify_window)
  recent none h = cc
  recent (some at) h = (at, refl, ground arith)

  recent_back :
      (o : Option ℕ) (at : ℕ)
      → o ≡ some at
      → env.now ≤ at + verify_window
      → is_old env.now o ≡ false
  recent_back o at e h = rw e (ground arith)

  -- What is sent is one update, of the flag of the node and to this value, over the cable if the
  -- node is the local one.
  abbrev pub IsFlagSent : ℕ → Bool → Result → Type 0
  IsFlagSent node value r =
      r.pushes
      ≡ record {
        node = node;
        method = method_for env.local_num node;
        update = is_managed_update value;
      }
        ∷ []

  abbrev OnlyFlag : ℕ → Bool → Result → Type 0
  OnlyFlag node value r = IsSent r → IsFlagSent node value r

  guard_managed_iff :
      (node : ℕ) (opts : Opts) (old : Bool)
      → IsSent (guard_managed fingerprint env node opts old)
        ↔ (IsForced opts (codes "LOCKDOWN") ⊎ ((old ≡ false) × (opts.force ≡ false)))
  unfolding guard_managed push_managed
  guard_managed_iff node opts true = elim (Bool-cases opts.force) [
    | inr f ↦ rw f ((λ h. cc), λ a. elim a [ inl forced ↦ cc forced.0 | inr kept ↦ cc kept.0 ])
    | inl f ↦ elim (Bool-cases (eq_text opts.ack (codes "LOCKDOWN"))) [
      | inl t ↦
          rw (f, t) ((λ h. inl (refl, eq_text_sound opts.ack (codes "LOCKDOWN") t)), λ a. refl)
      | inr t ↦
          rw (f, t)
            (
              (λ h. cc),
              λ a. elim a [
                | inl forced ↦ cc (t, word-eq opts.ack (codes "LOCKDOWN") forced.1)
                | inr kept ↦ cc kept.0
              ],
            )
    ]
  ]
  guard_managed_iff node opts false = elim (Bool-cases opts.force) [
    | inr f ↦ rw f ((λ h. inr (refl, refl)), λ a. refl)
    | inl f ↦ elim (Bool-cases (eq_text opts.ack (codes "LOCKDOWN"))) [
      | inl t ↦
          rw (f, t) ((λ h. inl (refl, eq_text_sound opts.ack (codes "LOCKDOWN") t)), λ a. refl)
      | inr t ↦
          rw (f, t)
            (
              (λ h. cc),
              λ a. elim a [
                | inl forced ↦ cc (t, word-eq opts.ack (codes "LOCKDOWN") forced.1)
                | inr kept ↦ cc kept.1
              ],
            )
    ]
  ]

  lock_down_iff :
      (node : ℕ) (opts : Opts) (read : TrustRead)
      → IsSent (lock_down fingerprint env node opts read) ↔ LockdownAllowed opts read
  unfolding lock_down
  lock_down_iff node opts read_error = ((λ h. cc), λ a. absurd a)
  lock_down_iff node opts not_found =
      let (to, from) = guard_managed_iff node opts true in
      (
        (λ h. elim (to h) [ inl forced ↦ forced | inr kept ↦ cc kept.0 ]),
        λ forced. from (inl forced),
      )
  lock_down_iff node opts (row n) =
      let (to, from) = guard_managed_iff node opts (is_old env.now n.last_verified_at) in
      (
        (λ h. elim (to h) [
          | inl forced ↦ inl forced
          | inr (young, free) ↦ inr (recent n.last_verified_at young, free)
        ]),
        λ a. elim a [
          | inl forced ↦ from (inl forced)
          | inr ((at, e, late), free) ↦ from (inr (recent_back n.last_verified_at at e late, free))
        ],
      )

  guard_managed-OnlyFlag :
      (node : ℕ) (opts : Opts) (old : Bool)
      → OnlyFlag node true (guard_managed fingerprint env node opts old)
  unfolding guard_managed push_managed
  guard_managed-OnlyFlag node opts old =
      if-both (OnlyFlag node true) (old && not opts.force) _ _ (λ h. cc)
        (if-both (OnlyFlag node true) (opts.force && not (eq_text opts.ack (codes "LOCKDOWN"))) _ _
          (λ h. cc) (λ h. refl))

  lock_down-OnlyFlag :
      (node : ℕ) (opts : Opts) (read : TrustRead)
      → OnlyFlag node true (lock_down fingerprint env node opts read)
  unfolding lock_down
  lock_down-OnlyFlag node opts read_error = λ h. cc
  lock_down-OnlyFlag node opts not_found = guard_managed-OnlyFlag node opts true
  lock_down-OnlyFlag node opts (row n) =
      guard_managed-OnlyFlag node opts (is_old env.now n.last_verified_at)

  -- The update is sent just under a condition, and nothing is sent otherwise.
  abbrev pub IsFlagSentIf : ℕ → Bool → Type 0 → Result → Type 0
  IsFlagSentIf node value allowed r =
      (IsFlagSent node value r ↔ allowed) × (IsFlagSent node value r ⊎ (r.pushes ≡ []))

  OnlyFlag-IsFlagSentIf :
      (node : ℕ) (value : Bool) (allowed : Type 0) (r : Result)
      → OnlyFlag node value r
      → IsSent r ↔ allowed
      → IsFlagSentIf node value allowed r
  OnlyFlag-IsFlagSentIf node value allowed r only (to, from) = (
    ((λ sent. to (ap is_empty sent)), λ a. only (from a)),
    elim (Bool-cases (is_empty r.pushes)) [
      | inl e ↦ inr (is_empty-nil r.pushes e)
      | inr e ↦ inl (only e)
    ],
  )

  set_is_managed-IsSent :
      (node : ℕ) (opts : Opts) (read : TrustRead)
      → (IsSent (set_is_managed fingerprint env node true opts read)
          ↔ ((node ≢ 0) × LockdownAllowed opts read))
        × (IsSent (set_is_managed fingerprint env node false opts read) ↔ (node ≢ 0))
  unfolding set_is_managed push_managed
  set_is_managed-IsSent node opts read =
      let (to, from) = lock_down_iff node opts read in
      elim (Bool-cases (node == 0)) [
        | inl e ↦ rw e (
          ((λ h. cc), λ a. absurd (grind (arith, e, a.0))),
          ((λ h. cc), λ a. absurd (grind (arith, e, a))),
        )
        | inr e ↦
            rw e (
              ((λ h. (grind (arith, e), to h)), λ a. from a.1),
              ((λ h. grind (arith, e)), λ a. refl),
            )
      ]

  set_is_managed-OnlyFlag :
      (node : ℕ) (value : Bool) (opts : Opts) (read : TrustRead)
      → OnlyFlag node value (set_is_managed fingerprint env node value opts read)
  unfolding set_is_managed push_managed
  set_is_managed-OnlyFlag node true opts read =
      if-both (OnlyFlag node true) (node == 0) _ _ (λ h. cc) (lock_down-OnlyFlag node opts read)
  set_is_managed-OnlyFlag node false opts read =
      if-both (OnlyFlag node false) (node == 0) _ _ (λ h. cc) (λ h. refl)

  -- `SetIsManaged` locks a node down just if its number is not 0, the roster can be read, and
  -- either the call is forced with the word LOCKDOWN, or it is not forced and the node was verified
  -- within the last 24 hours; it releases every node whose number is not 0. To lock it down is to
  -- send it one update that sets the flag and nothing else, over the cable if it is the local node,
  -- and to release it is to send it one that clears the flag; otherwise nothing is sent.
  pub set_is_managed_iff :
      (node : ℕ) (opts : Opts) (read : TrustRead)
      → IsFlagSentIf node true
          ((node ≢ 0) × LockdownAllowed opts read)
          (set_is_managed fingerprint env node true opts read)
        × IsFlagSentIf node false (node ≢ 0) (set_is_managed fingerprint env node false opts read)
  set_is_managed_iff node opts read =
      let (lock, release) = set_is_managed-IsSent node opts read in
      (
        OnlyFlag-IsFlagSentIf node true _ (set_is_managed fingerprint env node true opts read)
            (set_is_managed-OnlyFlag node true opts read) lock,
        OnlyFlag-IsFlagSentIf node false _ (set_is_managed fingerprint env node false opts read)
            (set_is_managed-OnlyFlag node false opts read) release,
      )
