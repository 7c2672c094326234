-- ===== src/Frame/Decoding.antt =====
-- The frame decoder on any buffer.
use skattr.Base.{
  ℕ, ◌<◌, ◌≡◌, ◌≢◌, ◌⊎◌, inl, inr, refl, subst, [], ◌∷◌, ◌++◌, none, some, Bytes, length, arith,
  Bool, true, false, Option, All, IsByte,
}
use skattr.Wire.{put_frame, Head, head, incomplete, zero_length, too_large, whole}
use skattr.Wire.Framing.{put_frame-head, head-whole, Field, IsHead, head-Field}
use skattr.Frame.{
  Frame, Cbor, ◌>>=◌, Result, ok, err, parse, decode, body, encode, append_body, error,
  chunk_request, chunk, chunk_nack, attachment_complete, zero_length_frame, frame_too_large,
  frame_type, type_byte,
}

-- The frames whose payload is no CBOR.
abbrev pub is_plain : Frame → Bool
is_plain (error _ _) = false
is_plain (chunk_request _ _) = false
is_plain (chunk _ _ _) = false
is_plain (chunk_nack _ _ _) = false
is_plain (attachment_complete _) = false
is_plain _ = true

module _ (cbor : Cbor) where
  body-parse :
      (t : ℕ) (payload : Bytes) (f : Frame)
      → parse cbor t payload ≡ ok f
      → is_plain f ≡ true
      → body cbor f ≡ ok (t, payload)
  unfolding parse body
  body-parse t [] f e h = ground arith
  body-parse t (b ∷ bs) f e h = ground arith

  parse-type_byte :
      (t : ℕ) (payload : Bytes) (f : Frame)
      → parse cbor t payload ≡ ok f
      → t ≡ type_byte (frame_type f)
  unfolding parse type_byte frame_type
  parse-type_byte t [] f e = ground arith
  parse-type_byte t (b ∷ bs) f e = ground arith

  decoded-ne-none :
      (t : ℕ) (payload : Bytes) → (parse cbor t payload >>= λ f. ok (some f)) ≢ ok none
  decoded-ne-none t payload = go (parse cbor t payload)
    where
      go : (r : Result Frame) → (r >>= λ f. ok (some f)) ≢ ok none
      go (ok f) = λ e. cc
      go (err x) = λ e. cc

  -- What a call of `decode` has done with the buffer `src`: it waits, because the length field or what
  -- that announces is not there yet; it refuses the length field; or it has taken the length field, the
  -- type byte and all the payload, and the result is that of `parse`.
  abbrev pub Decoded : Bytes → Bytes × Result (Option Frame) → Type 0
  Decoded src (left, r) =
      ((left ≡ src) × (r ≡ ok none) × ((length src < 4) ⊎ Field src (IsHead incomplete)))
      ⊎ (((left ≡ src) × (r ≡ err zero_length_frame) × Field src (IsHead zero_length))
          ⊎ (((left ≡ src)
                × ((n : ℕ) × (r ≡ err (frame_too_large n)) × Field src (IsHead (too_large n))))
              ⊎ ((t : ℕ) × (payload : Bytes) × Field src (IsHead (whole t payload left))
                  × (r ≢ ok none)
                  × (r ≡ (parse cbor t payload >>= λ f. ok (some f))))))

  -- A call of `decode` takes nothing where it waits, because the four bytes of the length field,
  -- or as many bytes as a field of 1 to 16 MiB announces, are not there yet, or where it refuses
  -- a field of zero or above 16 MiB; otherwise it takes the field and just the bytes that the
  -- field counts, type byte and payload, and gives a frame or an error, as `parse` does of these.
  pub decode_progress : (src : Bytes) → Decoded src (decode cbor src)
  unfolding decode
  decode_progress src = go (head src) refl (head-Field src)
    where
      go :
          (h : Head)
          → head src ≡ h
          → ((length src < 4) × (head src ≡ incomplete)) ⊎ Field src (IsHead (head src))
          → Decoded src (decode cbor src)
      go h e (inl (short, i)) = rw (i, decode) (inl (refl, refl, inl short))
      go incomplete e (inr f) =
          rw (e, decode) (inl (refl, refl, inr (subst (λ x. Field src (IsHead x)) e f)))
      go zero_length e (inr f) =
          rw (e, decode) (inr (inl (refl, refl, subst (λ x. Field src (IsHead x)) e f)))
      go (too_large n) e (inr f) =
          rw (e, decode) (inr (inr (inl (refl, (n, refl, subst (λ x. Field src (IsHead x)) e f)))))
      go (whole t payload rest) e (inr f) =
          rw (e, decode)
            (inr (
              inr (
                inr (
                  t,
                  payload,
                  subst (λ x. Field src (IsHead x)) e f,
                  decoded-ne-none t payload,
                  refl,
                ))))

  decode_inv :
      (src rest : Bytes) (f : Frame)
      → decode cbor src ≡ (rest, ok (some f))
      → (p : ℕ × Bytes) × (head src ≡ whole p.0 p.1 rest) × (parse cbor p.0 p.1 ≡ ok f)
  unfolding decode
  decode_inv src rest f e = go (head src) refl
    where
      goal : Type 0
      goal = (p : ℕ × Bytes) × (head src ≡ whole p.0 p.1 rest) × (parse cbor p.0 p.1 ≡ ok f)

      go : (h : Head) → head src ≡ h → goal
      go incomplete h = absurd (ground arith)
      go zero_length h = absurd (ground arith)
      go (too_large n) h = absurd (ground arith)
      go (whole t payload rest') h = ((t, payload), ground arith, ground arith)

  -- A frame without CBOR has one encoding: when bytes decode to one, `encode` writes the very bytes
  -- that were consumed.
  pub encode-decode :
      (src rest : Bytes) (f : Frame)
      → All IsByte src
      → is_plain f ≡ true
      → decode cbor src ≡ (rest, ok (some f))
      → (written : Bytes) × (encode cbor f [] ≡ ok written) × (src ≡ written ++ rest)
  unfolding encode append_body
  encode-decode src rest f bytes plain e =
      let ((t, payload), h, p) = decode_inv src rest f e in
      let b = body-parse t payload f p plain in
      let (_, fits) = head-whole src t payload rest h in
      (put_frame t payload, ground arith, put_frame-head src t payload rest bytes h)
