-- ===== src/Serial/Wire/Total.antt =====
-- When the loop of a decoder returns: its body moves forward and does not panic.
use native.Mathlib.Decide.{dec_lt}
use diginode_cc.Prelude.{
  ℕ, zero, suc, ◌+◌, ◌^◌, ◌≤◌, ◌<◌, ◌≡◌, refl, true, false, Option, none, List, length, arith,
}
use diginode_cc.Serial.Wire.{
  DecodeError, Flow, go, exit, panic, hang, Outcome, returned, panicked, running, call, ◌>>=◌,
  is_before, fields_loop, decode_fields,
}
use diginode_cc.Serial.Wire.Chunks.{Fits}

-- A step that does not panic or hang, and goes on with a value for which `P` holds, if it goes on.
abbrev pub Holds {ℓ} : {A : Type ℓ} → (A → Type 0) → Flow A → Type 0
Holds P (go a) = P a
Holds P (exit e) = Unit {0}
Holds P panic = ⊥
Holds P hang = ⊥

pub Holds-bind {ℓ κ} :
    {A : Type ℓ} {B : Type κ} (P : A → Type 0) (Q : B → Type 0) (m : Flow A) (f : A → Flow B)
    → Holds P m
    → ((a : A) → P a → Holds Q (f a))
    → Holds Q (m >>= f)
Holds-bind P Q (go a) f h k = k a h
Holds-bind P Q (exit e) f h k = tt
Holds-bind P Q panic f h k = h
Holds-bind P Q hang f h k = h

-- A decoder that returns.
abbrev pub Returns {ℓ} : {A : Type ℓ} → Outcome A → Type ℓ
Returns {A = A} o = (a : A) × (e : Option DecodeError) × (o ≡ returned a e)

-- A call of it, and what is made of its message.
pub Holds-call {ℓ κ} :
    {A : Type ℓ} {B : Type κ} (o : Outcome A) (f : A → B)
    → Returns o
    → Holds (λ b. Unit {0}) (call o >>= λ a. go (f a))
Holds-call o f (a, e, p) = rw p tt

abbrev pub Forward {ℓ} : {S : Type ℓ} → ℕ → S × ℕ → Type 0
Forward pos (s, pos') = (pos < pos') × (pos' < 2 ^ 63)

-- A body that is safe at each position inside the bytes.
abbrev pub IsSafe {ℓ} : {S : Type ℓ} → (List ℕ → ℕ → S → Flow (S × ℕ)) → List ℕ → Type ℓ
IsSafe {S = S} body bytes =
    (pos : ℕ) (s : S) → pos < length bytes → Holds (Forward pos) (body bytes pos s)

-- A loop over a safe body returns: it has rounds enough for the bytes that are left.
module _ {ℓ} {S : Type ℓ} (body : List ℕ → ℕ → S → Flow (S × ℕ)) (bytes : List ℕ)
    (fits : Fits bytes) (safe : IsSafe body bytes) where
  fields_loop-end :
      (rounds pos : ℕ) (s : S)
      → pos < 2 ^ 63
      → length bytes ≤ pos
      → fields_loop body rounds bytes pos s ≡ returned s none
  unfolding fields_loop
  fields_loop-end zero pos s hp h =
      let after : is_before pos bytes ≡ false = ground arith in rw after
  fields_loop-end (suc rounds) pos s hp h =
      let after : is_before pos bytes ≡ false = ground arith in rw (after, fields_loop)

  next_round : ℕ → Flow (S × ℕ) → S → Outcome S
  next_round rounds (go (s', pos')) s = fields_loop body rounds bytes pos' s'
  next_round rounds (exit e) s = returned s e
  next_round rounds panic s = panicked
  next_round rounds hang s = running

  fields_loop-round :
      (rounds pos : ℕ) (s : S) (r : Flow (S × ℕ))
      → pos < length bytes
      → body bytes pos s ≡ r
      → fields_loop body (suc rounds) bytes pos s ≡ next_round rounds r s
  unfolding fields_loop next_round
  fields_loop-round rounds pos s (go (s', pos')) h e =
      let before : is_before pos bytes ≡ true = ground arith in rw (before, e, fields_loop)
  fields_loop-round rounds pos s (exit x) h e =
      let before : is_before pos bytes ≡ true = ground arith in rw (before, e, fields_loop)
  fields_loop-round rounds pos s panic h e =
      let before : is_before pos bytes ≡ true = ground arith in rw (before, e, fields_loop)
  fields_loop-round rounds pos s hang h e =
      let before : is_before pos bytes ≡ true = ground arith in rw (before, e, fields_loop)

  next_round-Returns :
      (rounds pos : ℕ) (r : Flow (S × ℕ)) (s : S)
      → Holds (Forward pos) r
      → ((s' : S) (pos' : ℕ)
          → Forward pos (s', pos')
          → Returns (fields_loop body rounds bytes pos' s'))
      → Returns (next_round rounds r s)
  unfolding next_round
  next_round-Returns rounds pos (go (s', pos')) s h k = k s' pos' h
  next_round-Returns rounds pos (exit e) s h k = (s, e, refl)
  next_round-Returns rounds pos panic s h k = absurd h
  next_round-Returns rounds pos hang s h k = absurd h

  fields_loop-Returns :
      (rounds pos : ℕ) (s : S)
      → pos < 2 ^ 63
      → length bytes ≤ rounds + pos
      → Returns (fields_loop body rounds bytes pos s)
  fields_loop-Returns zero pos s hp enough = (s, none, fields_loop-end zero pos s hp (omega arith))
  fields_loop-Returns (suc rounds) pos s hp enough = elim (dec_lt pos (length bytes)) [
    | yes inside ↦ rw (fields_loop-round rounds pos s (body bytes pos s) inside refl) (
        next_round-Returns rounds pos (body bytes pos s) s (safe pos s inside)
          (λ s' pos' f. fields_loop-Returns rounds pos' s' f.1 (omega (arith, f.0))))
    | no outside ↦ (s, none, fields_loop-end (suc rounds) pos s hp (omega arith))
  ]

  pub decode_fields-Returns : (s : S) → Returns (decode_fields body bytes s)
  unfolding decode_fields
  decode_fields-Returns s = fields_loop-Returns (length bytes) 0 s (omega arith) (omega arith)
