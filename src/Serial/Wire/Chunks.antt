-- ===== src/Serial/Wire/Chunks.antt =====
-- A message that is a sequence of encoded fields: the loop takes them one by one.
use diginode_cc.Prelude.{
  ℕ, zero, suc, ◌+◌, ◌-◌, ◌*◌, ◌/◌, ◌%◌, ◌^◌, ◌≤◌, ◌<◌, ◌≡◌, ◌∙◌, sym, true, false, Option, none,
  List, [], ◌++◌, append-nil, append_assoc, length, length-append, take-append, drop-append, bit_or,
  bit_and, arith,
}
use diginode_cc.Prelude.Bits.{bit_or-high_low, bit_and_seven}
use diginode_cc.Serial.Varint.{IsU64, IsU32, u64_mod, encode_varint, encode_fixed32}
use diginode_cc.Serial.Varint.RoundTrip.{
  decode_varint-encode_varint, encode_varint_shape, decode_fixed32-encode_fixed32,
  length-encode_fixed32,
}
use diginode_cc.Serial.Encode.{encode_tag}
use diginode_cc.Serial.Wire.{
  DecodeError, Flow, go, returned, add_int, is_past, is_before, suffix, slice, read_varint,
  read_tag, read_bytes, read_fixed32, fields_loop, decode_fields,
}

-- A slice in memory is shorter than 2 ^ 62 bytes, so that positions in it do not wrap.
abbrev pub Fits : List ℕ → Type 0
Fits bytes = length bytes < 2 ^ 62

suffix-append :
    (front rest : List ℕ) → Fits (front ++ rest) → suffix (front ++ rest) (length front) ≡ go rest
unfolding suffix
suffix-append front rest fits = ground (arith, length-append front rest, drop-append front rest)

-- The readers on what the encoders wrote, behind any other bytes.
pub read_varint-encode_varint :
    (e : Option DecodeError) (front : List ℕ) (v : ℕ) (rest : List ℕ)
    → IsU64 v
    → Fits (front ++ (encode_varint v ++ rest))
    → read_varint e (front ++ (encode_varint v ++ rest)) (length front)
      ≡ go (v, length (front ++ encode_varint v))
unfolding read_varint
read_varint-encode_varint e front v rest h fits = ground (
  arith,
  suffix-append front (encode_varint v ++ rest) fits,
  decode_varint-encode_varint v rest h,
  encode_varint_shape v h,
  length-append front (encode_varint v ++ rest),
  length-append (encode_varint v) rest,
  length-append front (encode_varint v),
)

-- `field << 3 | wire` of a field number that a uint64 has room for.
abbrev pub IsTag : ℕ → ℕ → Type 0
IsTag field wire = (field < 2 ^ 61) × (wire < 8)

pub tag_value :
    (field wire : ℕ) → IsTag field wire → bit_or (field * 2 ^ 3 % u64_mod) wire ≡ field * 8 + wire
tag_value field wire (hf, hw) =
    let e : field * 2 ^ 3 % u64_mod ≡ field * 2 ^ 3 = omega arith in
    rw e (bit_or-high_low 3 field wire hw)

pub read_tag-encode_tag :
    (front : List ℕ) (field wire : ℕ) (rest : List ℕ)
    → IsTag field wire
    → Fits (front ++ (encode_tag field wire ++ rest))
    → read_tag (front ++ (encode_tag field wire ++ rest)) (length front)
      ≡ go (field, wire, length (front ++ encode_tag field wire))
unfolding read_tag encode_tag
read_tag-encode_tag front field wire rest (hf, hw) fits =
    let v = field * 8 + wire in
    let high : v / 8 ≡ field = omega arith in
    let low : bit_and v 7 ≡ wire = omega (arith, bit_and_seven v) in
    rw
      (
        tag_value field wire (hf, hw),
        read_varint-encode_varint none front v rest (omega arith)
            (rw (tag_value field wire (hf, hw)) at fits),
      )
      (ground (arith, high, low))

slice-append :
    (front sub rest : List ℕ)
    → Fits (front ++ (sub ++ rest))
    → slice (front ++ (sub ++ rest)) (length front) (length front + length sub) ≡ go sub
unfolding slice
slice-append front sub rest fits =
    let n : length front + length sub - length front ≡ length sub = omega arith in
    rw (drop-append front (sub ++ rest), n, take-append sub rest)
      (ground (arith, length-append front (sub ++ rest), length-append sub rest))

pub read_bytes-encoded :
    (e e' : Option DecodeError) (front sub rest : List ℕ)
    → Fits (front ++ (encode_varint (length sub) ++ (sub ++ rest)))
    → read_bytes e e' (front ++ (encode_varint (length sub) ++ (sub ++ rest))) (length front)
      ≡ go (sub, length (front ++ (encode_varint (length sub) ++ sub)))
unfolding read_bytes
read_bytes-encoded e e' front sub rest fits =
    let n = encode_varint (length sub) in
    let front' = front ++ n in
    let bytes = front ++ (n ++ (sub ++ rest)) in
    let a : bytes ≡ front' ++ (sub ++ rest) = sym (append_assoc front n (sub ++ rest)) in
    let b : length front' + length sub ≡ length (front ++ (n ++ sub)) =
      omega (arith, length-append front n, length-append front (n ++ sub), length-append n sub) in
    let c : length (front ++ (n ++ sub)) ≤ length bytes = omega (
      arith,
      length-append front (n ++ sub),
      length-append n sub,
      length-append front (n ++ (sub ++ rest)),
      length-append n (sub ++ rest),
      length-append sub rest,
    ) in
    let w : add_int (length front') (length sub) ≡ length (front ++ (n ++ sub)) = omega arith in
    let inside : is_past (length (front ++ (n ++ sub))) bytes ≡ false = ground arith in
    rw (read_varint-encode_varint e front (length sub) (sub ++ rest) (omega arith) fits)
      (rw (w, inside) (rw (← b) (rw a (rw (slice-append front' sub rest (rw a at fits))))))

pub read_fixed32-encode_fixed32 :
    (e : Option DecodeError) (front : List ℕ) (v : ℕ) (rest : List ℕ)
    → IsU32 v
    → Fits (front ++ (encode_fixed32 v ++ rest))
    → read_fixed32 e (front ++ (encode_fixed32 v ++ rest)) (length front)
      ≡ go (v, length (front ++ encode_fixed32 v))
unfolding read_fixed32
read_fixed32-encode_fixed32 e front v rest h fits = ground (
  arith,
  drop-append front (encode_fixed32 v ++ rest),
  decode_fixed32-encode_fixed32 v rest h,
  length-append front (encode_fixed32 v ++ rest),
  length-append (encode_fixed32 v) rest,
  length-append front (encode_fixed32 v),
  length-encode_fixed32 v,
)

-- A chunk takes the message from `s` to `s'` in one round, whatever stands around it.
abbrev pub Steps {ℓ} : {S : Type ℓ} → (List ℕ → ℕ → S → Flow (S × ℕ)) → List ℕ → S → S → Type ℓ
Steps body x s s' =
    (front rest : List ℕ)
    → Fits (front ++ (x ++ rest))
    → body (front ++ (x ++ rest)) (length front) s ≡ go (s', length (front ++ x))

pub data Chunks {ℓ} {S : Type ℓ} (body : List ℕ → ℕ → S → Flow (S × ℕ))
    : S → List ℕ → S → Type ℓ where
  end : {s : S} → Chunks body s [] s
  chunk :
      {s s' t : S} (x : List ℕ) {xs : List ℕ}
      → 1 ≤ length x
      → Steps body x s s'
      → Chunks body s' xs t
      → Chunks body s (x ++ xs) t

module _ {ℓ} {S : Type ℓ} (body : List ℕ → ℕ → S → Flow (S × ℕ)) where
  fields_loop-go :
      (rounds : ℕ) (bytes : List ℕ) (pos : ℕ) (s s' : S) (pos' : ℕ)
      → pos < length bytes
      → body bytes pos s ≡ go (s', pos')
      → fields_loop body (suc rounds) bytes pos s ≡ fields_loop body rounds bytes pos' s'
  unfolding fields_loop
  fields_loop-go rounds bytes pos s s' pos' h e =
      let before : is_before pos bytes ≡ true = ground arith in rw (before, e, fields_loop)

  fields_loop-end :
      (rounds : ℕ) (bytes : List ℕ) (s : S)
      → Fits bytes
      → fields_loop body rounds bytes (length bytes) s ≡ returned s none
  unfolding fields_loop
  fields_loop-end zero bytes s fits =
      let after : is_before (length bytes) bytes ≡ false = ground arith in rw after
  fields_loop-end (suc rounds) bytes s fits =
      let after : is_before (length bytes) bytes ≡ false = ground arith in rw (after, fields_loop)

  fields_loop-Chunks :
      {s t : S} {xs : List ℕ} (rounds : ℕ) (front : List ℕ)
      → Chunks body s xs t
      → Fits (front ++ xs)
      → length xs ≤ rounds
      → fields_loop body rounds (front ++ xs) (length front) s ≡ returned t none
  fields_loop-Chunks {s} rounds front end fits enough =
      rw (append-nil front) (fields_loop-end rounds front s (rw (append-nil front) at fits))
  fields_loop-Chunks zero front (chunk x {xs = xs} pos st rest) fits enough =
      absurd (omega (arith, length-append x xs))
  fields_loop-Chunks {s} {t} (suc rounds) front (chunk {s' = s'} x {xs = xs} pos st rest) fits
        enough =
      let bytes = front ++ (x ++ xs) in
      let a : bytes ≡ (front ++ x) ++ xs = sym (append_assoc front x xs) in
      let inside : length front < length bytes =
        omega (arith, length-append front (x ++ xs), length-append x xs) in
      fields_loop-go rounds bytes (length front) s s' (length (front ++ x)) inside
        (st front xs fits)
      ∙ rw a (
          fields_loop-Chunks rounds (front ++ x) rest (rw a at fits)
            (omega (arith, length-append x xs)))

  -- A message that is made of chunks is decoded to what they leave, with no error.
  pub decode_fields-Chunks :
      {s t : S} {xs : List ℕ}
      → Chunks body s xs t
      → Fits xs
      → decode_fields body xs s ≡ returned t none
  unfolding decode_fields
  decode_fields-Chunks {xs = xs} c fits = fields_loop-Chunks (length xs) [] c fits (omega arith)
