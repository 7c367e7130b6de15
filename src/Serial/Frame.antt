-- ===== src/Serial/Frame.antt =====
-- The frames of the serial stream (internal/serial/framing.go): `FrameDecoder`, `Feed` and
-- `EncodeFrame`.
pub mod Stream
pub mod RoundTrip
use diginode_cc.Prelude.{
  ℕ, ◌*◌, ◌/◌, ◌%◌, bit_or, ◌||◌, Option, none, some, List, [], ◌∷◌, ◌++◌, length, take, ltb, leb,
  ◌==◌, if◌then◌else◌,
}

abbrev pub frame_start1 : ℕ
frame_start1 = 0x94

abbrev pub frame_start2 : ℕ
frame_start2 = 0xC3

abbrev pub max_frame_len : ℕ
max_frame_len = 512

pub data FrameState : Type 0 where
  wait_start1 wait_start2 wait_len_msb wait_len_lsb read_payload : FrameState

pub record FrameDecoder : Type 0 where
  pub buf : List ℕ
  pub state : FrameState
  pub payload_len : ℕ

unfoldable pub new_frame_decoder : FrameDecoder
new_frame_decoder = record { buf = []; state = wait_start1; payload_len = 0 }

-- One byte of `Feed`'s loop in each state of the `switch`, with the frame that it completes.
feed_state : FrameState → FrameDecoder → ℕ → FrameDecoder × Option (List ℕ)
feed_state wait_start1 d b =
    (if b == frame_start1 then record d { state = wait_start2 } else d, none)
feed_state wait_start2 d b = (
  if b == frame_start2
      then record d { state = wait_len_msb; buf = [] }
      else record d { state = wait_start1 },
  none,
)
feed_state wait_len_msb d b = (record d { payload_len = b * 256; state = wait_len_lsb }, none)
feed_state wait_len_lsb d b =
    let n = bit_or d.payload_len b in
    (
      if ltb max_frame_len n || n == 0
          then record d { payload_len = n; state = wait_start1 }
          else record d { payload_len = n; state = read_payload },
      none,
    )
feed_state read_payload d b =
    let buf' = d.buf ++ (b ∷ []) in
    if leb d.payload_len (length buf')
    then (record d { buf = buf'; state = wait_start1 }, some (take d.payload_len buf'))
    else (record d { buf = buf' }, none)

unfoldable pub feed_byte : FrameDecoder → ℕ → FrameDecoder × Option (List ℕ)
unfolding feed_state
feed_byte d b = feed_state d.state d b

abbrev pub emit : Option (List ℕ) → List (List ℕ) → List (List ℕ)
emit none frames = frames
emit (some f) frames = f ∷ frames

-- `Feed`: the frames in the order in which they are completed.
unfoldable pub feed : FrameDecoder → List ℕ → FrameDecoder × List (List ℕ)
feed d [] = (d, [])
feed d (b ∷ bs) =
    let (d', out) = feed_byte d b in let (d'', frames) = feed d' bs in (d'', emit out frames)

-- `EncodeFrame`: `nil` (`[]`) for a payload that is too long, else START1, START2, the length in
-- two bytes, most significant first, and the payload.
unfoldable pub encode_frame : List ℕ → List ℕ
encode_frame payload =
    if ltb max_frame_len (length payload)
    then []
    else frame_start1 ∷ frame_start2 ∷ (length payload / 256) % 256 ∷ length payload % 256 ∷ payload
