-- ===== src/Serial/Field/Total.antt =====
-- The cases of the `switch wireType` on any bytes, and the bodies that consist of them.
use diginode_cc.Prelude.{ℕ, ◌+◌, ◌^◌, ◌≤◌, ◌<◌, ◌≡◌, none, List, length, take, drop, bit_and, arith}
use diginode_cc.Serial.Varint.{decode_varint}
use diginode_cc.Serial.Field.{
  varint_field, fixed_field, bytes_field, message_field, fixed32_field, skipped_field,
}
use diginode_cc.Serial.Wire.{
  Flow, go, exit, panic, hang, ◌>>=◌, read_varint, read_tag, read_bytes, read_fixed32, skip_bytes,
  skip_or_break,
}
use diginode_cc.Serial.Wire.Chunks.{Fits}
use diginode_cc.Serial.Wire.Total.{Holds, Holds-bind, Forward, IsSafe}
use diginode_cc.Serial.Wire.Readers.{
  IsVarintAt, IsTagAt, IsSlice, SmallAt, read_varint-Holds, read_tag-Holds, read_bytes-Holds,
  read_fixed32-Holds, skip_bytes-Holds, skip_or_break-Holds,
}

-- Wherever a tag of wire type 2 can be read, the varint behind it is below 2 ^ 62.
abbrev pub SmallLengths : List ℕ → Type 0
SmallLengths bytes =
    (pos : ℕ)
    → bit_and (decode_varint (drop pos bytes)).0 7 ≡ 2
    → (decode_varint (drop (pos + (decode_varint (drop pos bytes)).1) bytes)).0 < 2 ^ 62

module _ {ℓ} {S : Type ℓ} (bytes : List ℕ) (fits : Fits bytes) where
  pub varint_field-Holds :
      (set : ℕ → ℕ → S → S) (field pos : ℕ) (s : S)
      → pos ≤ length bytes
      → Holds (Forward pos) (varint_field set bytes field pos s)
  unfolding varint_field
  varint_field-Holds set field pos s h =
      Holds-bind (IsVarintAt bytes pos) (Forward pos) (read_varint none bytes pos) _
        (read_varint-Holds bytes fits none pos h) (λ r at_pos. (at_pos.2, omega (arith, at_pos.3)))

  pub fixed_field-Holds :
      (width pos : ℕ) (s : S)
      → 0 < width
      → width < 2 ^ 62
      → pos ≤ length bytes
      → Holds (Forward pos) (fixed_field width bytes pos s)
  unfolding fixed_field
  fixed_field-Holds width pos s hw small h =
      Holds-bind _ (Forward pos) (skip_bytes width none bytes pos) _
        (skip_bytes-Holds bytes fits width none pos hw small h)
        (λ end ahead. (ahead.0, omega (arith, ahead.1)))

  pub fixed32_field-Holds :
      (set : ℕ → ℕ → S → S) (field pos : ℕ) (s : S)
      → pos ≤ length bytes
      → Holds (Forward pos) (fixed32_field set bytes field pos s)
  unfolding fixed32_field
  fixed32_field-Holds set field pos s h =
      Holds-bind (λ r. (pos < r.1) × (r.1 ≤ length bytes)) (Forward pos)
        (read_fixed32 none bytes pos) _ (read_fixed32-Holds bytes fits none pos h)
        (λ r ahead. (ahead.0, omega (arith, ahead.1)))

  pub bytes_field-Holds :
      (set : ℕ → List ℕ → S → S) (field pos : ℕ) (s : S)
      → pos ≤ length bytes
      → SmallAt bytes fits pos
      → Holds (Forward pos) (bytes_field set bytes field pos s)
  unfolding bytes_field
  bytes_field-Holds set field pos s h small =
      Holds-bind (IsSlice bytes fits pos) (Forward pos) (read_bytes none none bytes pos) _
        (read_bytes-Holds bytes fits none none pos h small) (λ r cut. (cut.3, omega (arith, cut.4)))

  -- The bytes go to decoders that return on every slice.
  pub message_field-Holds :
      (set : ℕ → List ℕ → S → Flow S) (field pos : ℕ) (s : S)
      → pos ≤ length bytes
      → SmallAt bytes fits pos
      → ((start k : ℕ) → Holds (λ s'. Unit {0}) (set field (take k (drop start bytes)) s))
      → Holds (Forward pos) (message_field set bytes field pos s)
  unfolding message_field
  message_field-Holds set field pos s h small nested =
      Holds-bind (IsSlice bytes fits pos) (Forward pos) (read_bytes none none bytes pos) _
        (read_bytes-Holds bytes fits none none pos h small)
        (λ r cut.
          Holds-bind (λ s'. Unit {0}) (Forward pos) (set field r.0 s) _
            (rw cut.2 (nested cut.0 cut.1)) (λ s' _. (cut.3, omega (arith, cut.4))))

  pub skipped_field-Holds :
      (wire pos : ℕ) (s : S)
      → pos ≤ length bytes
      → (wire ≡ 2 → SmallAt bytes fits pos)
      → Holds (Forward pos) (skipped_field bytes wire pos s)
  unfolding skipped_field
  skipped_field-Holds wire pos s h small =
      Holds-bind _ (Forward pos) (skip_or_break bytes pos wire) _
        (skip_or_break-Holds bytes fits pos wire h small) (λ end ahead. ahead)

  -- A body is safe if what it does behind a tag is. `R` is what it needs to know of the tag.
  pub tagged-IsSafe :
      (R : ℕ → ℕ → Type 0) (body : List ℕ → ℕ → S → Flow (S × ℕ))
      (dispatch : List ℕ → ℕ → ℕ → ℕ → S → Flow (S × ℕ))
      → ((pos : ℕ) (t : ℕ × ℕ × ℕ) → IsTagAt bytes fits pos t → R t.1 t.2)
      → ((pos : ℕ) (s : S)
          → body bytes pos s ≡ (read_tag bytes pos >>= λ t. dispatch bytes t.0 t.1 t.2 s))
      → ((field wire pos : ℕ) (s : S)
          → pos ≤ length bytes
          → R wire pos
          → Holds (Forward pos) (dispatch bytes field wire pos s))
      → IsSafe body bytes
  tagged-IsSafe R body dispatch known e safe pos s inside = rw (e pos s) (
      Holds-bind (IsTagAt bytes fits pos) (Forward pos) (read_tag bytes pos) _
        (read_tag-Holds bytes fits pos (omega arith))
        (λ t at_pos.
          further (dispatch bytes t.0 t.1 t.2 s) t.2 at_pos.2
            (safe t.0 t.1 t.2 s at_pos.3 (known pos t at_pos))))
    where
      further :
          (r : Flow (S × ℕ)) (pos' : ℕ)
          → pos < pos'
          → Holds (Forward pos') r
          → Holds (Forward pos) r
      further (go (s', p)) pos' h (ahead, below) = (omega arith, below)
      further (exit x) pos' h k = tt
      further panic pos' h k = k
      further hang pos' h k = k

module _ (bytes : List ℕ) (fits : Fits bytes) where
  -- What the decoders that read a length need to know.
  abbrev pub SmallBehind : ℕ → ℕ → Type 0
  SmallBehind wire pos = wire ≡ 2 → SmallAt bytes fits pos

  pub SmallLengths-behind :
      SmallLengths bytes
      → (pos : ℕ) (t : ℕ × ℕ × ℕ) → IsTagAt bytes fits pos t
      → SmallBehind t.1 t.2
  SmallLengths-behind small pos t at_pos e = rw at_pos.1 (small pos (rw at_pos.0 at e))
