-- ===== src/Serial/Field/Chunks.antt =====
-- Each kind of encoded field is a chunk of a message whose decoder hands that kind to its `switch`.
use diginode_cc.Prelude.{
  ℕ, ◌+◌, ◌*◌, ◌≤◌, ◌≡◌, ap, ◌∙◌, sym, none, List, ◌++◌, append_assoc, length, length-append, arith,
}
use diginode_cc.Serial.Varint.{IsU64, IsU32, encode_varint, encode_fixed32}
use diginode_cc.Serial.Varint.RoundTrip.{encode_varint_shape}
use diginode_cc.Serial.Encode.{encode_tag}
use diginode_cc.Serial.Field.{varint_field, bytes_field, message_field, fixed32_field}
use diginode_cc.Serial.Wire.{Flow, go, read_tag}
use diginode_cc.Serial.Wire.Chunks.{
  Fits, IsTag, Steps, read_tag-encode_tag, read_varint-encode_varint, read_bytes-encoded,
  read_fixed32-encode_fixed32, tag_value,
}

-- On a tag of this number and wire type, a round is what `handle` does behind it.
abbrev pub Dispatches {ℓ} :
    {S : Type ℓ}
    → (List ℕ → ℕ → S → Flow (S × ℕ))
    → ℕ
    → ℕ
    → (List ℕ → ℕ → ℕ → S → Flow (S × ℕ))
    → Type ℓ
Dispatches {S = S} body field wire handle =
    (bytes : List ℕ) (pos pos' : ℕ) (s : S)
    → read_tag bytes pos ≡ go (field, wire, pos')
    → body bytes pos s ≡ handle bytes field pos' s

-- What `handle` does on a value that is written as `y`, behind any bytes.
abbrev pub Handles {ℓ} :
    {S : Type ℓ} → (List ℕ → ℕ → ℕ → S → Flow (S × ℕ)) → ℕ → List ℕ → S → S → Type ℓ
Handles handle field y s s' =
    (front rest : List ℕ)
    → Fits (front ++ (y ++ rest))
    → handle (front ++ (y ++ rest)) field (length front) s ≡ go (s', length (front ++ y))

pub delimited :
    (front sub rest : List ℕ)
    → front ++ ((encode_varint (length sub) ++ sub) ++ rest)
      ≡ front ++ (encode_varint (length sub) ++ (sub ++ rest))
delimited front sub rest = ap (λ l. front ++ l) (append_assoc (encode_varint (length sub)) sub rest)

module _ {ℓ} {S : Type ℓ} where
  -- The tag and the value together.
  pub tagged_chunk :
      (body : List ℕ → ℕ → S → Flow (S × ℕ)) (handle : List ℕ → ℕ → ℕ → S → Flow (S × ℕ))
      (field wire : ℕ) (y : List ℕ) (s s' : S)
      → IsTag field wire
      → Dispatches body field wire handle
      → Handles handle field y s s'
      → Steps body (encode_tag field wire ++ y) s s'
  tagged_chunk body handle field wire y s s' tag dispatches handles front rest fits =
      let t = encode_tag field wire in
      let a : front ++ ((t ++ y) ++ rest) ≡ front ++ (t ++ (y ++ rest)) =
        ap (λ l. front ++ l) (append_assoc t y rest) in
      let b : front ++ (t ++ (y ++ rest)) ≡ (front ++ t) ++ (y ++ rest) =
        sym (append_assoc front t (y ++ rest)) in
      let c : length ((front ++ t) ++ y) ≡ length (front ++ (t ++ y)) =
        ap length (append_assoc front t y) in
      rw a (
        dispatches _ _ _ s (read_tag-encode_tag front field wire (y ++ rest) tag (rw a at fits))
        ∙ rw b (handles (front ++ t) rest (rw (a, b) at fits) ∙ rw c))

  pub varint_field-Handles :
      (set : ℕ → ℕ → S → S) (field v : ℕ) (s : S)
      → IsU64 v
      → Handles (varint_field set) field (encode_varint v) s (set field v s)
  unfolding varint_field
  varint_field-Handles set field v s h front rest fits =
      rw (read_varint-encode_varint none front v rest h fits)

  pub fixed32_field-Handles :
      (set : ℕ → ℕ → S → S) (field v : ℕ) (s : S)
      → IsU32 v
      → Handles (fixed32_field set) field (encode_fixed32 v) s (set field v s)
  unfolding fixed32_field
  fixed32_field-Handles set field v s h front rest fits =
      rw (read_fixed32-encode_fixed32 none front v rest h fits)

  pub bytes_field-Handles :
      (set : ℕ → List ℕ → S → S) (field : ℕ) (sub : List ℕ) (s : S)
      → Handles (bytes_field set) field (encode_varint (length sub) ++ sub) s (set field sub s)
  unfolding bytes_field
  bytes_field-Handles set field sub s front rest fits =
      rw (delimited front sub rest)
        (rw (read_bytes-encoded none none front sub rest (rw (delimited front sub rest) at fits)))

  pub message_field-Handles :
      (set : ℕ → List ℕ → S → Flow S) (field : ℕ) (sub : List ℕ) (s s' : S)
      → set field sub s ≡ go s'
      → Handles (message_field set) field (encode_varint (length sub) ++ sub) s s'
  unfolding message_field
  message_field-Handles set field sub s s' e front rest fits = rw (delimited front sub rest) (
      rw (read_bytes-encoded none none front sub rest (rw (delimited front sub rest) at fits))
        (rw e))

-- A tag takes a byte at least.
pub encode_tag_pos : (field wire : ℕ) → IsTag field wire → 1 ≤ length (encode_tag field wire)
unfolding encode_tag
encode_tag_pos field wire (hf, hw) =
    rw (tag_value field wire (hf, hw)) (encode_varint_shape (field * 8 + wire) (omega arith)).1

pub tagged_pos :
    (field wire : ℕ) (y : List ℕ) → IsTag field wire → 1 ≤ length (encode_tag field wire ++ y)
tagged_pos field wire y h =
    omega (arith, length-append (encode_tag field wire) y, encode_tag_pos field wire h)
