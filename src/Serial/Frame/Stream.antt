-- ===== src/Serial/Frame/Stream.antt =====
-- What `Feed` makes of a stream of bytes.
use diginode_cc.Prelude.{
  ℕ, ◌%◌, ◌≤◌, ◌<◌, ◌≡◌, refl, ap, Option, none, some, List, [], ◌∷◌, ◌++◌, length, length-append,
  length-take, take, All, arith,
}
use diginode_cc.Serial.Frame.{
  FrameDecoder, wait_len_msb, wait_len_lsb, read_payload, new_frame_decoder, max_frame_len,
  feed_byte, emit, feed,
}

-- What holds of a decoder between two bytes.
pub record IsValid (d : FrameDecoder) : Type 0 where
  pub header_clears : (d.state ≡ wait_len_msb) → length d.buf ≡ 0
  pub length_clears : (d.state ≡ wait_len_lsb) → length d.buf ≡ 0
  pub msb_only : (d.state ≡ wait_len_lsb) → d.payload_len % 256 ≡ 0
  pub payload_fits : (d.state ≡ read_payload) → d.payload_len ≤ max_frame_len
  pub payload_open : (d.state ≡ read_payload) → length d.buf < d.payload_len

abbrev pub IsFrame : List ℕ → Type 0
IsFrame f = (1 ≤ length f) × (length f ≤ max_frame_len)

abbrev AllEmitted : (List ℕ → Type 0) → Option (List ℕ) → Type 0
AllEmitted P none = Unit {0}
AllEmitted P (some f) = P f

pub take_whole : (xs : List ℕ) → take (length xs) xs ≡ xs
take_whole [] = refl
take_whole (x ∷ xs) = ap (λ l. x ∷ l) (take_whole xs)

feed_byte-IsValid :
    (d : FrameDecoder) (b : ℕ)
    → IsValid d
    → IsValid (feed_byte d b).0 × AllEmitted IsFrame (feed_byte d b).1
unfolding feed_byte
feed_byte-IsValid d b v =
    ground (arith, length-append d.buf (b ∷ []), length-take d.payload_len (d.buf ++ (b ∷ [])))

All-emit :
    (P : List ℕ → Type 0) (o : Option (List ℕ)) (fs : List (List ℕ))
    → AllEmitted P o
    → All P fs
    → All P (emit o fs)
All-emit P none fs h hs = hs
All-emit P (some f) fs h hs = (h, hs)

pub new_frame_decoder-IsValid : IsValid new_frame_decoder
unfolding new_frame_decoder
new_frame_decoder-IsValid = ground arith

-- Whatever bytes arrive, a decoder in a valid state stays in one, so that its buffer never holds
-- more than 512 bytes while a payload is read, and each frame that it returns has 1 to 512 bytes.
pub feed-IsValid :
    (d : FrameDecoder) (bs : List ℕ) → IsValid d → IsValid (feed d bs).0 × All IsFrame (feed d bs).1
unfolding feed
feed-IsValid d [] v = (v, tt)
feed-IsValid d (b ∷ bs) v =
    let (v', framed) = feed_byte-IsValid d b v in
    let (v'', rest) = feed-IsValid (feed_byte d b).0 bs v' in
    (v'', All-emit IsFrame (feed_byte d b).1 (feed (feed_byte d b).0 bs).1 framed rest)
