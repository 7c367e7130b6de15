-- ===== src/Serial/Frame/RoundTrip.antt =====
-- `Feed` on the bytes that `EncodeFrame` writes.
use diginode_cc.Prelude.{
  ℕ, ◌+◌, ◌/◌, ◌%◌, ◌≤◌, ◌<◌, ◌≡◌, ◌≢◌, refl, ap, ◌∙◌, none, some, List, [], ◌∷◌, ◌++◌,
  append_assoc, length, length-append, take, All, arith,
}
use diginode_cc.Prelude.Bits.{bit_or-high_low}
use diginode_cc.Serial.Frame.{
  FrameDecoder, wait_start1, read_payload, frame_start1, feed_byte, feed, encode_frame,
}
use diginode_cc.Serial.Frame.Stream.{IsFrame, take_whole}

-- The decoder that waits for `n - length front` bytes more.
abbrev reading : List ℕ → ℕ → FrameDecoder
reading front n = record { buf = front; state = read_payload; payload_len = n }

abbrev pub idle : List ℕ → ℕ → FrameDecoder
idle front n = record { buf = front; state = wait_start1; payload_len = n }

feed_byte-inner :
    (front : List ℕ) (b n : ℕ)
    → length front + 1 < n
    → feed_byte (reading front n) b ≡ (reading (front ++ (b ∷ [])) n, none)
unfolding feed_byte
feed_byte-inner front b n h = ground (arith, length-append front (b ∷ []))

feed_byte-last :
    (front : List ℕ) (b n : ℕ)
    → length front + 1 ≡ n
    → feed_byte (reading front n) b ≡ (idle (front ++ (b ∷ [])) n, some (front ++ (b ∷ [])))
unfolding feed_byte
feed_byte-last front b n h =
    let whole : List ℕ = front ++ (b ∷ []) in
    let e : n ≡ length whole = omega (arith, length-append front (b ∷ [])) in
    ground (arith, e, take_whole whole, ap (λ (k : ℕ). take k whole) e)

feed-payload :
    (front p rest : List ℕ) (n : ℕ)
    → 1 ≤ length p
    → length front + length p ≡ n
    → feed (reading front n) (p ++ rest)
      ≡ ((feed (idle (front ++ p) n) rest).0, (front ++ p) ∷ (feed (idle (front ++ p) n) rest).1)
unfolding feed
feed-payload front [] rest n h e = absurd (omega arith)
feed-payload front (b ∷ []) rest n h e = rw (feed_byte-last front b n (omega arith))
feed-payload front (b ∷ c ∷ p) rest n h e = rw (
  feed_byte-inner front b n (omega arith),
  feed-payload (front ++ (b ∷ [])) (c ∷ p) rest n (omega arith)
      (omega (arith, length-append front (b ∷ []))),
  append_assoc front (b ∷ []) (c ∷ p),
)

-- The header brings an idle decoder to the start of the payload.
feed-header :
    (d : FrameDecoder) (p rest : List ℕ)
    → d.state ≡ wait_start1
    → IsFrame p
    → feed d (encode_frame p ++ rest) ≡ feed (reading [] (length p)) (p ++ rest)
unfolding feed feed_byte encode_frame
feed-header d p rest idle_now (lo, hi) =
    ground (arith, bit_or-high_low 8 (length p / 256 % 256) (length p % 256) (omega arith))

-- `Feed` gives back the payload of a frame that `EncodeFrame` wrote, as soon as it is complete,
-- and is then idle: what follows is decoded as if it came first. The payload is any of 1 to 512
-- bytes, and the decoder any that waits for a frame, whatever it has read before.
pub feed-encode_frame :
    (d : FrameDecoder) (p rest : List ℕ)
    → d.state ≡ wait_start1
    → IsFrame p
    → let d' = idle p (length p) in
      feed d (encode_frame p ++ rest) ≡ ((feed d' rest).0, p ∷ (feed d' rest).1)
feed-encode_frame d p rest idle_now (lo, hi) =
    feed-header d p rest idle_now (lo, hi) ∙ feed-payload [] p rest (length p) lo (omega arith)

abbrev pub encode_frames : List (List ℕ) → List ℕ
encode_frames [] = []
encode_frames (p ∷ ps) = encode_frame p ++ encode_frames ps

-- `Feed` decodes a stream of frames that `EncodeFrame` wrote, each around 1 to 512 bytes, to their
-- payloads, in order, with nothing left open, if the decoder waits for a frame.
pub feed-encode_frames :
    (d : FrameDecoder) (ps : List (List ℕ))
    → d.state ≡ wait_start1
    → All IsFrame ps
    → ((feed d (encode_frames ps)).1 ≡ ps) × ((feed d (encode_frames ps)).0.state ≡ wait_start1)
feed-encode_frames d [] idle_now h = unfold feed in (refl, idle_now)
feed-encode_frames d (p ∷ ps) idle_now (h, hs) =
    let (rest, last) = feed-encode_frames (idle p (length p)) ps refl hs in
    rw (feed-encode_frame d p (encode_frames ps) idle_now h) (ap (λ l. p ∷ l) rest, last)

-- A byte that is not START1 leaves a decoder that waits for START1 as it is, ...
feed-skip :
    (d : FrameDecoder) (bs : List ℕ)
    → d.state ≡ wait_start1
    → All (λ b. b ≢ frame_start1) bs
    → feed d bs ≡ (d, [])
unfolding feed feed_byte
feed-skip d [] idle_now h = refl
feed-skip d (b ∷ bs) idle_now (h, hs) = ground (arith, feed-skip d bs idle_now hs)

-- A stray START1 in front of a frame of 1 to 512 bytes makes `Feed` lose the frame: a decoder that
-- waits for a frame takes the second START1 for a wrong START2, and searches behind it. If neither
-- the payload nor the low byte of its length is START1, it returns no frame, and waits for START1.
pub feed-stray_start1 :
    (d : FrameDecoder) (p : List ℕ)
    → d.state ≡ wait_start1
    → IsFrame p
    → length p % 256 ≢ frame_start1
    → All (λ b. b ≢ frame_start1) p
    → ((feed d (frame_start1 ∷ encode_frame p)).1 ≡ [])
      × ((feed d (frame_start1 ∷ encode_frame p)).0.state ≡ wait_start1)
unfolding feed feed_byte encode_frame
feed-stray_start1 d p idle_now (lo, hi) low clean =
    ground (arith, feed-skip (record d { state = wait_start1 }) p refl clean)
