-- ===== src/Frame.antt =====
-- crates/core/src/transport/frame.rs: the frames between peers and their codec. `[u8; 16]` is a
-- list of bytes. The CBOR of a payload struct is the library ciborium's: a parameter.
pub mod RoundTrip
pub mod Decoding
mod Tests
use skattr.Base.{
  ℕ, suc, ◌+◌, ◌≡◌, Bool, true, false, List, [], ◌∷◌, ◌++◌, Option, none, some, Bytes, length, ltb,
  ◌==◌, if◌then◌else◌,
}
use skattr.Wire.{
  Serde, max_frame_size, Head, incomplete, zero_length, too_large, whole, head, put_frame,
}

pub data FrameType : Type 0 where
  noise_init noise_resp mls_welcome mls_commit mls_app ack ping pong bye error : FrameType
  chunk_request chunk chunk_nack attachment_complete : FrameType

-- `FrameType as u8`
unfoldable pub type_byte : FrameType → ℕ
type_byte noise_init = 0x01
type_byte noise_resp = 0x02
type_byte mls_welcome = 0x03
type_byte mls_commit = 0x04
type_byte mls_app = 0x05
type_byte ack = 0x06
type_byte ping = 0x07
type_byte pong = 0x08
type_byte bye = 0x09
type_byte error = 0x0A
type_byte chunk_request = 0x0B
type_byte chunk = 0x0C
type_byte chunk_nack = 0x0D
type_byte attachment_complete = 0x0E

pub data Frame : Type 0 where
  noise_init noise_resp mls_welcome mls_commit mls_app : Bytes → Frame
  ack : Bytes → Frame
  ping pong bye : Frame
  error : (code : ℕ) (message : Bytes) → Frame
  chunk_request : (attachment_id : Bytes) (index : ℕ) → Frame
  chunk : (attachment_id : Bytes) (index : ℕ) (ciphertext : Bytes) → Frame
  chunk_nack : (attachment_id : Bytes) (index reason : ℕ) → Frame
  attachment_complete : (attachment_id : Bytes) → Frame

unfoldable pub frame_type : Frame → FrameType
frame_type (noise_init _) = noise_init
frame_type (noise_resp _) = noise_resp
frame_type (mls_welcome _) = mls_welcome
frame_type (mls_commit _) = mls_commit
frame_type (mls_app _) = mls_app
frame_type (ack _) = ack
frame_type ping = ping
frame_type pong = pong
frame_type bye = bye
frame_type (error _ _) = error
frame_type (chunk_request _ _) = chunk_request
frame_type (chunk _ _ _) = chunk
frame_type (chunk_nack _ _ _) = chunk_nack
frame_type (attachment_complete _) = attachment_complete

-- The payload structs that ciborium writes and reads.
pub record ErrorPayload : Type 0 where
  pub code : ℕ
  pub message : Bytes

pub record ChunkRequestPayload : Type 0 where
  pub attachment_id : Bytes
  pub index : ℕ

pub record ChunkPayload : Type 0 where
  pub attachment_id : Bytes
  pub index : ℕ
  pub ciphertext : Bytes

pub record ChunkNackPayload : Type 0 where
  pub attachment_id : Bytes
  pub index : ℕ
  pub reason : ℕ

pub record AttachmentCompletePayload : Type 0 where
  pub attachment_id : Bytes

pub record Cbor : Type 0 where
  pub error_payload : Serde ErrorPayload
  pub chunk_request_payload : Serde ChunkRequestPayload
  pub chunk_payload : Serde ChunkPayload
  pub chunk_nack_payload : Serde ChunkNackPayload
  pub attachment_complete_payload : Serde AttachmentCompletePayload

-- `CoreError::Frame` with what its message tells apart.
pub data FrameError : Type 0 where
  zero_length_frame : FrameError
  frame_too_large : ℕ → FrameError
  ack_length : ℕ → FrameError
  cbor_decode : FrameType → FrameError
  nonempty : FrameType → FrameError
  unknown_type : ℕ → FrameError
  cbor_encode : FrameType → FrameError
  encoded_too_large : ℕ → FrameError

pub data Result {ℓ} (A : Type ℓ) : Type ℓ where
  ok : A → Result A
  err : FrameError → Result A

infixl 5 ◌>>=◌
abbrev pub ◌>>=◌ {ℓ κ} : {A : Type ℓ} {B : Type κ} → Result A → (A → Result B) → Result B
ok a >>= f = f a
err e >>= f = err e

abbrev pub ok_or {ℓ} : {A : Type ℓ} → Option A → FrameError → Result A
ok_or none e = err e
ok_or (some a) e = ok a

abbrev only_empty : FrameType → Bytes → Frame → Result Frame
only_empty t [] f = ok f
only_empty t (b ∷ bs) f = err (nonempty t)

module _ (cbor : Cbor) where
  -- The match on the type byte.
  unfoldable pub parse : ℕ → Bytes → Result Frame
  parse t payload =
      if t == 0x01
      then ok (noise_init payload)
      else if t == 0x02
      then ok (noise_resp payload)
      else if t == 0x03
      then ok (mls_welcome payload)
      else if t == 0x04
      then ok (mls_commit payload)
      else if t == 0x05
      then ok (mls_app payload)
      else if t == 0x06
      then (if length payload == 16 then ok (ack payload) else err (ack_length (length payload)))
      else if t == 0x0A
      then (do
        p ← ok_or (cbor.error_payload.from_reader payload) (cbor_decode error)
        ok (error p.code p.message))
      else if t == 0x07
      then only_empty ping payload ping
      else if t == 0x08
      then only_empty pong payload pong
      else if t == 0x09
      then only_empty bye payload bye
      else if t == 0x0B
      then (do
        p ← ok_or (cbor.chunk_request_payload.from_reader payload) (cbor_decode chunk_request)
        ok (chunk_request p.attachment_id p.index))
      else if t == 0x0C
      then (do
        p ← ok_or (cbor.chunk_payload.from_reader payload) (cbor_decode chunk)
        ok (chunk p.attachment_id p.index p.ciphertext))
      else if t == 0x0D
      then (do
        p ← ok_or (cbor.chunk_nack_payload.from_reader payload) (cbor_decode chunk_nack)
        ok (chunk_nack p.attachment_id p.index p.reason))
      else if t == 0x0E
      then (do
        p ←
            ok_or (cbor.attachment_complete_payload.from_reader payload)
              (cbor_decode attachment_complete)
        ok (attachment_complete p.attachment_id))
      else err (unknown_type t)

  -- `decode(&mut self, src)`: the buffer after the call, and its result.
  unfoldable pub decode : Bytes → Bytes × Result (Option Frame)
  decode src = elim (head src) [
    | incomplete ↦ (src, ok none)
    | zero_length ↦ (src, err zero_length_frame)
    | too_large len ↦ (src, err (frame_too_large len))
    | whole t payload rest ↦ (rest, (do frame ← parse t payload; ok (some frame)))
  ]

  -- The type byte and payload of the frame to write.
  unfoldable pub body : Frame → Result (ℕ × Bytes)
  body ping = ok (0x07, [])
  body pong = ok (0x08, [])
  body bye = ok (0x09, [])
  body (ack id) = ok (0x06, id)
  body (noise_init p) = ok (0x01, p)
  body (noise_resp p) = ok (0x02, p)
  body (mls_welcome p) = ok (0x03, p)
  body (mls_commit p) = ok (0x04, p)
  body (mls_app p) = ok (0x05, p)
  body (error code message) = do
    buf ←
        ok_or (cbor.error_payload.into_writer (record { code = code; message = message }))
          (cbor_encode error)
    ok (0x0A, buf)
  body (chunk_request id index) = do
    buf ←
        ok_or
          (cbor.chunk_request_payload.into_writer (record { attachment_id = id; index = index }))
          (cbor_encode chunk_request)
    ok (0x0B, buf)
  body (chunk id index ciphertext) = do
    buf ←
        ok_or
          (cbor.chunk_payload.into_writer
            (record { attachment_id = id; index = index; ciphertext = ciphertext }))
          (cbor_encode chunk)
    ok (0x0C, buf)
  body (chunk_nack id index reason) = do
    buf ←
        ok_or
          (cbor.chunk_nack_payload.into_writer
            (record { attachment_id = id; index = index; reason = reason }))
          (cbor_encode chunk_nack)
    ok (0x0D, buf)
  body (attachment_complete id) = do
    buf ←
        ok_or (cbor.attachment_complete_payload.into_writer (record { attachment_id = id }))
          (cbor_encode attachment_complete)
    ok (0x0E, buf)

  -- The cap, and the bytes appended to `dst`.
  unfoldable pub append_body : Bytes → ℕ × Bytes → Result Bytes
  append_body dst (t, payload) =
      let len = 1 + length payload in
      if ltb max_frame_size len
      then err (encoded_too_large len)
      else ok (dst ++ put_frame t payload)

  -- `encode(&mut self, item, dst)`: `dst` after a successful call; an error leaves it as it was.
  unfoldable pub encode : Frame → Bytes → Result Bytes
  unfolding append_body
  encode item dst = do (t, payload) ← body item; append_body dst (t, payload)
