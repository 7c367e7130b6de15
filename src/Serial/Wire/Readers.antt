-- ===== src/Serial/Wire/Readers.antt =====
-- The readers on any bytes: they move forward within them, and panic only at a length of 2 ^ 62 or
-- more.
use diginode_cc.Prelude.{
  ℕ, ◌+◌, ◌-◌, ◌/◌, ◌^◌, ◌≤◌, ◌<◌, ◌≡◌, refl, ap, true, false, Option, none, List, [], ◌∷◌, length,
  take, drop, length-drop, ltb, leb, ◌==◌, bit_and, arith, Bool-cases, inl, inr, ◌⊎◌, ◌||◌,
  if◌then◌else◌,
}
use diginode_cc.Serial.Varint.{decode_varint, decode_varint_loop, add_group, u64_mod}
use diginode_cc.Serial.Wire.{
  DecodeError, go, exit, ◌>>=◌, add_int, is_past, is_neg, slice, read_varint, read_tag, read_bytes,
  read_fixed32, skip_bytes, skip_varint, skip_field, skip_or_break,
}
use diginode_cc.Serial.Wire.Chunks.{Fits}
use diginode_cc.Serial.Wire.Total.{Holds, Holds-bind}

-- The readers. A varint is read within the bytes.
decode_varint_loop-le :
    (bs : List ℕ) (i val s : ℕ) → (decode_varint_loop bs i val s).1 ≤ i + length bs
unfolding decode_varint_loop
decode_varint_loop-le [] i val s = omega arith
decode_varint_loop-le (b ∷ bs) i val s =
    let val' = add_group val b s in
    let ih = decode_varint_loop-le bs (i + 1) val' (s + 7) in
    elim (Bool-cases (leb 10 i)) [
      | inl e ↦ rw e (omega arith)
      | inr e ↦ elim (Bool-cases (bit_and b 0x80 == 0)) [
        | inl f ↦ rw (e, f) (omega arith)
        | inr f ↦ rw (e, f) (omega arith)
      ]
    ]

pub decode_varint-le : (bs : List ℕ) → (decode_varint bs).1 ≤ length bs
unfolding decode_varint
decode_varint-le bs = omega (arith, decode_varint_loop-le bs 0 0 0)

skip_varint_bounds :
    (bs : List ℕ) (pos : ℕ)
    → (skip_varint bs pos ≡ u64_mod - 1)
      ⊎ (pos < skip_varint bs pos) × (skip_varint bs pos ≤ pos + length bs)
unfolding skip_varint
skip_varint_bounds [] pos = inl refl
skip_varint_bounds (b ∷ bs) pos = ground (arith, skip_varint_bounds bs (pos + 1))

-- What a varint that was read at `pos` is: what `decodeVarint` finds there.
abbrev pub IsVarintAt : List ℕ → ℕ → ℕ × ℕ → Type 0
IsVarintAt bytes pos (v, pos') =
    (v ≡ (decode_varint (drop pos bytes)).0)
    × (pos' ≡ pos + (decode_varint (drop pos bytes)).1)
    × (pos < pos')
    × (pos' ≤ length bytes)

module _ (bytes : List ℕ) (fits : Fits bytes) where
  pub read_varint_lem :
      (e : Option DecodeError) (pos : ℕ)
      → pos ≤ length bytes
      → read_varint e bytes pos ≡ (
          let (v, n) = decode_varint (drop pos bytes) in
          if n == 0 then exit e else go (v, add_int pos n))
  unfolding read_varint
  read_varint_lem e pos h =
      let inside : is_neg pos || ltb (length bytes) pos ≡ false = ground arith in rw inside

  pub read_varint-Holds :
      (e : Option DecodeError) (pos : ℕ)
      → pos ≤ length bytes
      → Holds (IsVarintAt bytes pos) (read_varint e bytes pos)
  read_varint-Holds e pos h =
      let n = (decode_varint (drop pos bytes)).1 in
      let le : pos + n ≤ length bytes =
        omega (arith, decode_varint-le (drop pos bytes), length-drop pos bytes) in
      rw (read_varint_lem e pos h) (elim (Bool-cases (n == 0)) [
        | inl f ↦ rw f tt
        | inr f ↦ rw f (refl, omega arith, ground arith, omega arith)
      ])

  read_tag_lem :
      (pos : ℕ)
      → read_tag bytes pos ≡ (read_varint none bytes pos >>= λ t. go (t.0 / 8, bit_and t.0 7, t.1))
  unfolding read_tag
  read_tag_lem pos = refl

  abbrev pub IsTagAt : ℕ → ℕ × ℕ × ℕ → Type 0
  IsTagAt pos (field, wire, pos') =
      (wire ≡ bit_and (decode_varint (drop pos bytes)).0 7)
      × (pos' ≡ pos + (decode_varint (drop pos bytes)).1)
      × (pos < pos')
      × (pos' ≤ length bytes)

  pub read_tag-Holds : (pos : ℕ) → pos ≤ length bytes → Holds (IsTagAt pos) (read_tag bytes pos)
  read_tag-Holds pos h = rw (read_tag_lem pos) (
      Holds-bind (IsVarintAt bytes pos) (IsTagAt pos) (read_varint none bytes pos) _
        (read_varint-Holds none pos h)
        (λ t at_pos. (ap (λ (v : ℕ). bit_and v 7) at_pos.0, at_pos.1, at_pos.2, at_pos.3)))

  -- A slice behind a length that is below 2 ^ 62.
  abbrev pub IsSlice : ℕ → List ℕ × ℕ → Type 0
  IsSlice pos (sub, end) =
      (start k : ℕ) × (sub ≡ take k (drop start bytes)) × (pos < end) × (end ≤ length bytes)

  abbrev pub SmallAt : ℕ → Type 0
  SmallAt pos = (decode_varint (drop pos bytes)).0 < 2 ^ 62

  pub slice-Holds :
      (start len : ℕ)
      → start ≤ length bytes
      → len < 2 ^ 62
      → is_past (add_int start len) bytes ≡ false
      → (slice bytes start (add_int start len)
          ≡ go (take (add_int start len - start) (drop start bytes)))
        × (start ≤ add_int start len)
        × (add_int start len ≤ length bytes)
  unfolding slice
  slice-Holds start len h small inside =
      let e : add_int start len ≡ start + len = omega arith in
      let le : add_int start len ≤ length bytes = ground arith in
      let sound : is_neg (add_int start len) || ltb (add_int start len) start ≡ false =
        ground arith in
      (rw sound, omega arith, le)

  pub read_bytes_lem :
      (e e' : Option DecodeError) (pos : ℕ)
      → read_bytes e e' bytes pos ≡ (
          read_varint e bytes pos >>= λ r.
          (if is_past (add_int r.1 r.0) bytes then exit e' else slice bytes r.1 (add_int r.1 r.0))
          >>= λ sub. go (sub, add_int r.1 r.0))
  unfolding read_bytes
  read_bytes_lem e e' pos = refl

  read_bytes-rest :
      (e' : Option DecodeError) (pos : ℕ) (r : ℕ × ℕ)
      → SmallAt pos
      → IsVarintAt bytes pos r
      → Holds (IsSlice pos) (
          (if is_past (add_int r.1 r.0) bytes then exit e' else slice bytes r.1 (add_int r.1 r.0))
          >>= λ sub. go (sub, add_int r.1 r.0))
  read_bytes-rest e' pos (v, start) small at_pos =
      let small_v : v < 2 ^ 62 = omega (arith, at_pos.0) in
      elim (Bool-cases (is_past (add_int start v) bytes)) [
        | inl f ↦ rw f tt
        | inr f ↦
            let cut = slice-Holds start v at_pos.3 small_v f in
            rw (f, cut.0)
              (start, add_int start v - start, refl, omega (arith, at_pos.2, cut.1), cut.2)
      ]

  pub read_bytes-Holds :
      (e e' : Option DecodeError) (pos : ℕ)
      → pos ≤ length bytes
      → SmallAt pos
      → Holds (IsSlice pos) (read_bytes e e' bytes pos)
  read_bytes-Holds e e' pos h small = rw (read_bytes_lem e e' pos) (
      Holds-bind (IsVarintAt bytes pos) (IsSlice pos) (read_varint e bytes pos) _
        (read_varint-Holds e pos h) (λ r at_pos. read_bytes-rest e' pos r small at_pos))

  pub read_fixed32-Holds :
      (e : Option DecodeError) (pos : ℕ)
      → pos ≤ length bytes
      → Holds (λ r. (pos < r.1) × (r.1 ≤ length bytes)) (read_fixed32 e bytes pos)
  unfolding read_fixed32
  read_fixed32-Holds e pos h = elim (Bool-cases (is_past (add_int pos 4) bytes)) [
    | inl f ↦ rw f tt
    | inr f ↦ rw f (ground arith, ground arith)
  ]

  pub skip_bytes-Holds :
      (k : ℕ) (e : Option DecodeError) (pos : ℕ)
      → 0 < k
      → k < 2 ^ 62
      → pos ≤ length bytes
      → Holds (λ end. (pos < end) × (end ≤ length bytes)) (skip_bytes k e bytes pos)
  unfolding skip_bytes
  skip_bytes-Holds k e pos hk small h = elim (Bool-cases (is_past (add_int pos k) bytes)) [
    | inl f ↦ rw f tt
    | inr f ↦ rw f (ground arith, ground arith)
  ]

  pub skip_field_lem :
      (pos wire : ℕ)
      → skip_field bytes pos wire ≡ (
          let (len, n) = decode_varint (drop pos bytes) in
          if wire == 0
          then skip_varint (drop pos bytes) pos
          else if wire == 1
          then add_int pos 8
          else if wire == 2
          then (if n == 0 then u64_mod - 1 else add_int (add_int pos n) len)
          else if wire == 5
          then add_int pos 4
          else u64_mod - 1)
  unfolding skip_field
  skip_field_lem pos wire = refl

  skip_field-cases :
      (pos wire : ℕ)
      → pos ≤ length bytes
      → (wire ≡ 2 → SmallAt pos)
      → (is_neg (skip_field bytes pos wire) ≡ true)
        ⊎ ((is_neg (skip_field bytes pos wire) ≡ false)
            × (pos < skip_field bytes pos wire)
            × (skip_field bytes pos wire < 2 ^ 63))
  skip_field-cases pos wire h small = rw (skip_field_lem pos wire) (
      ground (
        arith,
        skip_varint_bounds (drop pos bytes) pos,
        decode_varint-le (drop pos bytes),
        length-drop pos bytes,
      ))

  pub skip_or_break_lem :
      (pos wire : ℕ)
      → skip_or_break bytes pos wire
        ≡ (if is_neg (skip_field bytes pos wire) then exit none else go (skip_field bytes pos wire))
  unfolding skip_or_break
  skip_or_break_lem pos wire = refl

  pub skip_or_break-Holds :
      (pos wire : ℕ)
      → pos ≤ length bytes
      → (wire ≡ 2 → SmallAt pos)
      → Holds (λ end. (pos < end) × (end < 2 ^ 63)) (skip_or_break bytes pos wire)
  skip_or_break-Holds pos wire h small = elim (skip_field-cases pos wire h small) [
    | inl f ↦ rw (skip_or_break_lem pos wire, f) tt
    | inr (f, ahead, below) ↦ rw (skip_or_break_lem pos wire, f) (ahead, below)
  ]
