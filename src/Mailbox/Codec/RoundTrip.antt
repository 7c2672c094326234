-- ===== src/Mailbox/Codec/RoundTrip.antt =====
-- The mailbox codec: what is encoded is decoded, and no client byte sequence breaks the decoder.
use skattr.Base.{ℕ, ◌+◌, ◌≤◌, ◌≡◌, ◌⊎◌, inl, inr, refl, ap, ◌++◌, none, some, Bytes, length, arith}
use skattr.Wire.{max_frame_size, put_frame, head, Head, whole, incomplete, zero_length, too_large}
use skattr.Wire.Framing.{head-put_frame, head-whole}
use skattr.Mailbox.Failure.{
  ok, err, bind-eq-ok, Result-cases, MailboxError, transport, decode_failed,
}
use skattr.Mailbox.Codec.{
  MailboxFrame, deposit, deposit_ok, challenge, challenge_nonce, fetch, fetch_response, delete,
  delete_ok, error, Bodies, kind_byte, encode_body, encode_frame, parse_body, decode_frame,
}

module _ (bodies : Bodies) where
  open bodies use {
    deposit_body, deposit_ok_body, challenge_body, challenge_nonce_body, fetch_body,
    fetch_response_body, delete_body, delete_ok_body, error_body,
  }

  parse_body-encode_body :
      (f : MailboxFrame) (payload : Bytes)
      → encode_body bodies f ≡ ok payload
      → parse_body bodies (kind_byte f) payload ≡ ok f
  unfolding parse_body encode_body kind_byte
  parse_body-encode_body (deposit b) payload e = ground (arith, deposit_body.reads_back b payload)
  parse_body-encode_body (deposit_ok b) payload e =
      ground (arith, deposit_ok_body.reads_back b payload)
  parse_body-encode_body (challenge b) payload e =
      ground (arith, challenge_body.reads_back b payload)
  parse_body-encode_body (challenge_nonce b) payload e =
      ground (arith, challenge_nonce_body.reads_back b payload)
  parse_body-encode_body (fetch b) payload e = ground (arith, fetch_body.reads_back b payload)
  parse_body-encode_body (fetch_response b) payload e =
      ground (arith, fetch_response_body.reads_back b payload)
  parse_body-encode_body (delete b) payload e = ground (arith, delete_body.reads_back b payload)
  parse_body-encode_body (delete_ok b) payload e =
      ground (arith, delete_ok_body.reads_back b payload)
  parse_body-encode_body (error b) payload e = ground (arith, error_body.reads_back b payload)

  encode_frame_inv :
      (f : MailboxFrame) (dst dst' : Bytes)
      → encode_frame bodies f dst ≡ ok dst'
      → (payload : Bytes) × (encode_body bodies f ≡ ok payload)
        × (1 + length payload ≤ max_frame_size)
        × (dst' ≡ dst ++ put_frame (kind_byte f) payload)
  unfolding encode_frame
  encode_frame_inv f dst dst' e =
      let (payload, b, k) = bind-eq-ok (encode_body bodies f) _ e in
      (payload, b, ground (arith, k), ground (arith, k))

  -- The bytes that `encode` appends for a mailbox frame decode to that frame, whatever follows them
  -- in the buffer, and what follows is what stays in the buffer.
  pub decode_frame-encode_frame :
      (f : MailboxFrame) (dst dst' : Bytes)
      → encode_frame bodies f dst ≡ ok dst'
      → (written : Bytes) × (dst' ≡ dst ++ written)
        × ((rest : Bytes) → decode_frame bodies (written ++ rest) ≡ (rest, ok (some f)))
  unfolding decode_frame
  decode_frame-encode_frame f dst dst' e =
      let (payload, b, fits, out) = encode_frame_inv f dst dst' e in
      (
        put_frame (kind_byte f) payload,
        out,
        λ rest. rw (
          head-put_frame (kind_byte f) payload rest fits,
          decode_frame,
          parse_body-encode_body f payload b,
        ),
      )

  parse_body_err :
      (t : ℕ) (payload : Bytes) (e : MailboxError)
      → parse_body bodies t payload ≡ err e
      → e ≡ transport decode_failed
  unfolding parse_body
  parse_body_err t payload e h = ground arith

  -- Whatever a client sends, the decoder fails with `decode_failed` only, which the server answers
  -- as a malformed request; and a call that asks for more bytes keeps those that it has.
  pub decode_frame_err :
      (src : Bytes)
      → (((decode_frame bodies src).1 ≡ ok none) × ((decode_frame bodies src).0 ≡ src))
        ⊎ (((decode_frame bodies src).1 ≡ err (transport decode_failed))
            ⊎ ((f : MailboxFrame) × ((decode_frame bodies src).1 ≡ ok (some f))
                × (5 + length (decode_frame bodies src).0 ≤ length src)))
  unfolding decode_frame
  decode_frame_err src = go (head src) refl
    where
      go :
          (h : Head)
          → head src ≡ h
          → (((decode_frame bodies src).1 ≡ ok none) × ((decode_frame bodies src).0 ≡ src))
            ⊎ (((decode_frame bodies src).1 ≡ err (transport decode_failed))
                ⊎ ((f : MailboxFrame) × ((decode_frame bodies src).1 ≡ ok (some f))
                    × (5 + length (decode_frame bodies src).0 ≤ length src)))
      go incomplete e = rw (e, decode_frame) (inl (refl, refl))
      go zero_length e = rw (e, decode_frame) (inr (inl refl))
      go (too_large n) e = rw (e, decode_frame) (inr (inl refl))
      go (whole t payload rest) e =
          rw (e, decode_frame)
            (elim (Result-cases (parse_body bodies t payload)) [
              | inl (f, p) ↦
                  rw p (inr (inr (f, refl, omega (arith, head-whole src t payload rest e))))
              | inr (x, p) ↦ rw p (inr (inl (ap err (parse_body_err t payload x p))))
            ])
