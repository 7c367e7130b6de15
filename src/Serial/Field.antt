-- ===== src/Serial/Field.antt =====
-- The cases of the `switch wireType` that the decoders of internal/serial/framing.go repeat: a
-- field of each wire type, read and handed to the decoder's own `switch fieldNum`.
pub mod Chunks
pub mod Total
pub mod Slices
use diginode_cc.Prelude.{ℕ, Bool, not, Option, none, List, ◌==◌}
use diginode_cc.Serial.Wire.{
  Flow, go, exit, panic, hang, ◌>>=◌, read_varint, read_bytes, read_fixed32, skip_bytes,
  skip_or_break,
}

-- `val != 0`
abbrev pub is_set : ℕ → Bool
is_set val = not (val == 0)

-- A varint field, handed to the `switch`.
unfoldable pub varint_field {ℓ} : {S : Type ℓ} → (ℕ → ℕ → S → S) → List ℕ → ℕ → ℕ → S → Flow (S × ℕ)
unfolding read_varint
varint_field set bytes field pos s = do
  (val, pos') ← read_varint none bytes pos
  go (set field val s, pos')

-- A fixed-width field that is passed over.
unfoldable pub fixed_field {ℓ} : {S : Type ℓ} → ℕ → List ℕ → ℕ → S → Flow (S × ℕ)
unfolding skip_bytes
fixed_field width bytes pos s = do pos' ← skip_bytes width none bytes pos; go (s, pos')

-- A length-delimited field.
unfoldable pub bytes_field {ℓ} :
    {S : Type ℓ} → (ℕ → List ℕ → S → S) → List ℕ → ℕ → ℕ → S → Flow (S × ℕ)
unfolding read_bytes
bytes_field set bytes field pos s = do
  (sub, end) ← read_bytes none none bytes pos
  go (set field sub s, end)

-- A length-delimited field whose bytes go to further decoders.
unfoldable pub message_field {ℓ} :
    {S : Type ℓ} → (ℕ → List ℕ → S → Flow S) → List ℕ → ℕ → ℕ → S → Flow (S × ℕ)
unfolding read_bytes
message_field set bytes field pos s = do
  (sub, end) ← read_bytes none none bytes pos
  s' ← set field sub s
  go (s', end)

-- A fixed32 field.
unfoldable pub fixed32_field {ℓ} :
    {S : Type ℓ} → (ℕ → ℕ → S → S) → List ℕ → ℕ → ℕ → S → Flow (S × ℕ)
unfolding read_fixed32
fixed32_field set bytes field pos s = do
  (val, pos') ← read_fixed32 none bytes pos
  go (set field val s, pos')

-- A field that `skipField` passes over.
unfoldable pub skipped_field {ℓ} : {S : Type ℓ} → List ℕ → ℕ → ℕ → S → Flow (S × ℕ)
unfolding skip_or_break
skipped_field bytes wire pos s = do pos' ← skip_or_break bytes pos wire; go (s, pos')
