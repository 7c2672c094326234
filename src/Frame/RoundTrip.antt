-- ===== src/Frame/RoundTrip.antt =====
-- The frame codec: what is encoded is decoded.
use skattr.Base.{ℕ, ◌+◌, ◌≤◌, ◌≡◌, refl, sym, [], ◌∷◌, ◌++◌, none, some, Bytes, length, arith}
use skattr.Wire.{max_frame_size, put_frame}
use skattr.Wire.Framing.{head-put_frame, head_prefix}
use skattr.Frame.{
  Frame, Cbor, Result, ok, err, parse, decode, body, encode, append_body, error, chunk_request,
  chunk, chunk_nack, attachment_complete, ack, ping, pong, bye, noise_init, noise_resp, mls_welcome,
  mls_commit, mls_app,
}

-- `Ack` holds sixteen bytes; no other frame has a bound of its own.
abbrev pub IsSized : Frame → Type 0
IsSized (ack id) = length id ≡ 16
IsSized _ = Unit {0}

module _ (cbor : Cbor) where
  open cbor use {
    error_payload, chunk_request_payload, chunk_payload, chunk_nack_payload,
    attachment_complete_payload,
  }

  parse-body :
      (f : Frame) (t : ℕ) (payload : Bytes)
      → IsSized f
      → body cbor f ≡ ok (t, payload)
      → parse cbor t payload ≡ ok f
  unfolding parse body
  parse-body (noise_init p) t payload s e = ground arith
  parse-body (noise_resp p) t payload s e = ground arith
  parse-body (mls_welcome p) t payload s e = ground arith
  parse-body (mls_commit p) t payload s e = ground arith
  parse-body (mls_app p) t payload s e = ground arith
  parse-body (ack id) t payload s e = ground arith
  parse-body ping t payload s e = ground arith
  parse-body pong t payload s e = ground arith
  parse-body bye t payload s e = ground arith
  parse-body (error code message) t payload s e =
      ground (arith, error_payload.reads_back (record { code = code; message = message }) payload)
  parse-body (chunk_request id index) t payload s e = ground (
    arith,
    chunk_request_payload.reads_back (record { attachment_id = id; index = index }) payload,
  )
  parse-body (chunk id index ct) t payload s e = ground (
    arith,
    chunk_payload.reads_back (record { attachment_id = id; index = index; ciphertext = ct })
        payload,
  )
  parse-body (chunk_nack id index reason) t payload s e = ground (
    arith,
    chunk_nack_payload.reads_back (record { attachment_id = id; index = index; reason = reason })
        payload,
  )
  parse-body (attachment_complete id) t payload s e =
      ground (arith, attachment_complete_payload.reads_back (record { attachment_id = id }) payload)

  -- A successful `encode` appended one frame within the cap.
  encode_inv :
      (f : Frame) (dst dst' : Bytes)
      → encode cbor f dst ≡ ok dst'
      → (p : ℕ × Bytes) × (body cbor f ≡ ok p)
        × (1 + length p.1 ≤ max_frame_size)
        × (dst' ≡ dst ++ put_frame p.0 p.1)
  unfolding encode append_body
  encode_inv f dst dst' e = go (body cbor f) refl
    where
      go :
          (r : Result (ℕ × Bytes))
          → body cbor f ≡ r
          → (p : ℕ × Bytes) × (body cbor f ≡ ok p)
            × (1 + length p.1 ≤ max_frame_size)
            × (dst' ≡ dst ++ put_frame p.0 p.1)
      go (ok (t, payload)) b = ((t, payload), b, ground arith, ground arith)
      go (err x) b = absurd (ground arith)

  -- The bytes that `encode` appends for a frame decode to that frame, whatever follows them in the
  -- buffer, and what follows is what stays in the buffer.
  pub decode-encode :
      (f : Frame) (dst dst' : Bytes)
      → IsSized f
      → encode cbor f dst ≡ ok dst'
      → (written : Bytes) × (dst' ≡ dst ++ written)
        × ((rest : Bytes) → decode cbor (written ++ rest) ≡ (rest, ok (some f)))
  unfolding decode
  decode-encode f dst dst' s e =
      let ((t, payload), b, fits, out) = encode_inv f dst dst' e in
      (
        put_frame t payload,
        out,
        λ rest. rw (head-put_frame t payload rest fits, decode, parse-body f t payload s b),
      )

  -- While only a part of an encoded frame has arrived, `decode` asks for more and keeps the buffer.
  pub decode-encode_prefix :
      (f : Frame) (front back : Bytes) (x : ℕ)
      → encode cbor f [] ≡ ok (front ++ (x ∷ back))
      → decode cbor front ≡ (front, ok none)
  unfolding decode
  decode-encode_prefix f front back x e =
      let ((t, payload), b, fits, out) = encode_inv f [] (front ++ (x ∷ back)) e in
      rw (head_prefix t payload front back x fits (sym out), decode)
