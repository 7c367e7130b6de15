-- ===== src/Serial/Wire.antt =====
-- The shape that the decoders of internal/serial/framing.go share: a loop over the fields of a
-- message, and the readers of a tag, a varint, a length-delimited field and a fixed-width one.
--
-- A Go `int` is its 64-bit pattern, so that `int(length)` of a uint64 is the same number and the
-- sum `pos+int(length)` wraps; it is negative from 2 ^ 63 on.
pub mod Chunks
pub mod Total
pub mod Readers
use diginode_cc.Prelude.{
  ℕ, zero, suc, ◌+◌, ◌-◌, ◌*◌, ◌/◌, ◌%◌, ◌^◌, bit_and, Bool, ◌&&◌, ◌||◌, not, true, false, Option,
  none, some, List, [], ◌∷◌, length, take, drop, ltb, leb, ◌==◌, if◌then◌else◌,
}
use diginode_cc.Serial.Varint.{u64_mod, decode_varint, decode_fixed32}

abbrev pub is_neg : ℕ → Bool
is_neg n = leb (2 ^ 63) n

-- `a + b` of two ints, and `a > len(data)`.
abbrev pub add_int : ℕ → ℕ → ℕ
add_int a b = (a + b) % u64_mod

abbrev pub is_past : ℕ → List ℕ → Bool
is_past a bytes = not (is_neg a) && ltb (length bytes) a

-- The errors that `DecodeFromRadio` returns.
pub data DecodeError : Type 0 where
  empty_frame : DecodeError
  truncated_varint truncated_length truncated_payload truncated_fixed32 truncated_fixed64 :
      ℕ → DecodeError
  unknown_wire_type : ℕ → ℕ → DecodeError

-- What the body of a loop does: it goes on with a value, leaves the loop (`break` or `return`),
-- panics on a slice out of range, or never ends since a decoder that it calls does not.
pub data Flow {ℓ} (A : Type ℓ) : Type ℓ where
  go : A → Flow A
  exit : Option DecodeError → Flow A
  panic : Flow A
  hang : Flow A

infixl 5 ◌>>=◌
abbrev pub ◌>>=◌ {ℓ κ} : {A : Type ℓ} {B : Type κ} → Flow A → (A → Flow B) → Flow B
go a >>= f = f a
exit e >>= f = exit e
panic >>= f = panic
hang >>= f = hang

-- What a decoder does: it returns a message and an error (`none` for `nil`), it panics, or it is
-- still running after the rounds that it was given.
pub data Outcome {ℓ} (A : Type ℓ) : Type ℓ where
  returned : A → Option DecodeError → Outcome A
  panicked : Outcome A
  running : Outcome A

-- A call of a decoder that returns a message and no error.
abbrev pub call {ℓ} : {A : Type ℓ} → Outcome A → Flow A
call (returned a e) = go a
call panicked = panic
call running = hang

abbrev pub break {ℓ} : {A : Type ℓ} → Flow A
break = exit none

-- `data[pos:]`, which panics unless `0 <= pos <= len(data)`.
unfoldable pub suffix : List ℕ → ℕ → Flow (List ℕ)
suffix bytes pos = if is_neg pos || ltb (length bytes) pos then panic else go (drop pos bytes)

-- `val, n := decodeVarint(data[pos:])`, what is done if `n == 0`, and `pos += n`.
unfoldable pub read_varint : Option DecodeError → List ℕ → ℕ → Flow (ℕ × ℕ)
unfolding suffix decode_varint
read_varint e bytes pos = do
  rest ← suffix bytes pos
  let (val, n) = decode_varint rest
  if n == 0 then exit e else go (val, add_int pos n)

-- The tag, with `break` if there is none: the field's number, its wire type and the position.
unfoldable pub read_tag : List ℕ → ℕ → Flow (ℕ × ℕ × ℕ)
unfolding read_varint
read_tag bytes pos = do (tag, pos') ← read_varint none bytes pos; go (tag / 8, bit_and tag 7, pos')

-- `data[pos:end]`, which panics unless `0 <= pos <= end`; the callers check that `end` is at most
-- `len(data)`.
unfoldable pub slice : List ℕ → ℕ → ℕ → Flow (List ℕ)
slice bytes pos end =
    if is_neg end || ltb end pos then panic else go (take (end - pos) (drop pos bytes))

-- A length, the check `pos+int(length) > len(data)`, and the slice behind it; the errors are what
-- the loop is left with at the first and at the second test.
unfoldable pub read_bytes : Option DecodeError → Option DecodeError → List ℕ → ℕ → Flow (List ℕ × ℕ)
unfolding read_varint slice
read_bytes no_length too_long bytes pos = do
  (len, start) ← read_varint no_length bytes pos
  let end = add_int start len
  sub ← if is_past end bytes then exit too_long else slice bytes start end
  go (sub, end)

-- `if pos+4 > len(data)` and `binary.LittleEndian.Uint32(data[pos : pos+4])`
unfoldable pub read_fixed32 : Option DecodeError → List ℕ → ℕ → Flow (ℕ × ℕ)
unfolding decode_fixed32
read_fixed32 e bytes pos =
    if is_past (add_int pos 4) bytes
    then exit e
    else go (decode_fixed32 (drop pos bytes), add_int pos 4)

-- `if pos+8 > len(data)`, for a field that is passed over.
unfoldable pub skip_bytes : ℕ → Option DecodeError → List ℕ → ℕ → Flow ℕ
skip_bytes k e bytes pos = if is_past (add_int pos k) bytes then exit e else go (add_int pos k)

-- The loop of `skipField` over the bytes of a varint; -1 is `u64_mod - 1`.
unfoldable pub skip_varint : List ℕ → ℕ → ℕ
skip_varint [] pos = u64_mod - 1
skip_varint (b ∷ bs) pos =
    let more = skip_varint bs (pos + 1) in if bit_and b 0x80 == 0 then pos + 1 else more

-- `skipField`
unfoldable pub skip_field : List ℕ → ℕ → ℕ → ℕ
unfolding skip_varint decode_varint
skip_field bytes pos wire_type =
    let (len, n) = decode_varint (drop pos bytes) in
    if wire_type == 0
    then skip_varint (drop pos bytes) pos
    else if wire_type == 1
    then add_int pos 8
    else if wire_type == 2
    then if n == 0 then u64_mod - 1 else add_int (add_int pos n) len
    else if wire_type == 5
    then add_int pos 4
    else u64_mod - 1

-- `pos = skipField(data, pos, wireType); if pos < 0 { break }`
unfoldable pub skip_or_break : List ℕ → ℕ → ℕ → Flow ℕ
unfolding skip_field
skip_or_break bytes pos wire_type =
    let pos' = skip_field bytes pos wire_type in if is_neg pos' then break else go pos'

-- `pos < len(data)`
abbrev pub is_before : ℕ → List ℕ → Bool
is_before pos bytes = is_neg pos || ltb pos (length bytes)

-- `for pos < len(data) { ... }` for at most so many rounds. The message is as it was at the start
-- of a round that leaves the loop: no body changes it before it leaves.
module _ {ℓ} {S : Type ℓ} (body : List ℕ → ℕ → S → Flow (S × ℕ)) where
  unfoldable pub fields_loop : ℕ → List ℕ → ℕ → S → Outcome S
  fields_loop zero bytes pos s = if is_before pos bytes then running else returned s none
  fields_loop (suc rounds) bytes pos s = elim (is_before pos bytes) [
    | false ↦ returned s none
    | true ↦ elim (body bytes pos s) [
      | go (s', pos') ↦ fields_loop rounds bytes pos' s'
      | exit e ↦ returned s e
      | panic ↦ panicked
      | hang ↦ running
    ]
  ]

  -- A round that moves forward takes a byte at least, so that there are rounds enough.
  unfoldable pub decode_fields : List ℕ → S → Outcome S
  unfolding fields_loop
  decode_fields bytes s = fields_loop (length bytes) bytes 0 s
