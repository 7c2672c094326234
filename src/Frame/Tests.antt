-- ===== src/Frame/Tests.antt =====
-- The frame codec on concrete frames, with a toy encoding in place of CBOR.
use skattr.Base.{◌≡◌, refl, [], ◌∷◌, ◌++◌, none, some, Bytes, arith}
use skattr.Wire.{Serde, from_be, to_be, head, check_length, put_frame}
use skattr.Frame.{
  Cbor, ErrorPayload, ChunkRequestPayload, ChunkPayload, ChunkNackPayload,
  AttachmentCompletePayload, Frame, ok, err, parse, decode, body, append_body, encode, ping,
  chunk_nack, zero_length_frame, mls_app, unknown_type,
}
use skattr.Frame.RoundTrip.{decode-encode}
use skattr.Frame.Decoding.{decode_progress, encode-decode, Decoded}

-- One list for each struct: the length of the id, the id, and the rest.
abbrev toy_error_payload : Serde ErrorPayload
toy_error_payload = record {
  into_writer = λ p. some (p.code ∷ p.message);
  from_reader = elim [ [] ↦ none | c ∷ m ↦ some (record { code = c; message = m }) ];
  reads_back = λ p bytes e. ground arith;
}

abbrev toy_chunk_request_payload : Serde ChunkRequestPayload
toy_chunk_request_payload = record {
  into_writer = λ p. some (p.index ∷ p.attachment_id);
  from_reader = elim [ [] ↦ none | i ∷ m ↦ some (record { attachment_id = m; index = i }) ];
  reads_back = λ p bytes e. ground arith;
}

abbrev toy_chunk_payload : Serde ChunkPayload
toy_chunk_payload = record {
  into_writer = λ p. none;
  from_reader = λ bytes. none;
  reads_back = λ p bytes e. absurd (ground arith);
}

abbrev toy_chunk_nack_payload : Serde ChunkNackPayload
toy_chunk_nack_payload = record {
  into_writer = λ p. some (p.index ∷ p.reason ∷ p.attachment_id);
  from_reader = elim [
    | [] ↦ none
    | i ∷ m ↦ elim m [
      | [] ↦ none
      | r ∷ id ↦ some (record { attachment_id = id; index = i; reason = r })
    ]
  ];
  reads_back = λ p bytes e. ground arith;
}

abbrev toy_attachment_complete_payload : Serde AttachmentCompletePayload
toy_attachment_complete_payload = record {
  into_writer = λ p. some p.attachment_id;
  from_reader = λ bytes. some (record { attachment_id = bytes });
  reads_back = λ p bytes e. ground arith;
}

abbrev toy : Cbor
toy = record {
  error_payload = toy_error_payload;
  chunk_request_payload = toy_chunk_request_payload;
  chunk_payload = toy_chunk_payload;
  chunk_nack_payload = toy_chunk_nack_payload;
  attachment_complete_payload = toy_attachment_complete_payload;
}

encode_ping : encode toy ping [] ≡ ok (0 ∷ 0 ∷ 0 ∷ 1 ∷ 0x07 ∷ [])
unfolding encode body append_body put_frame to_be
encode_ping = refl

abbrev nack : Frame
nack = chunk_nack (0xAB ∷ 0xCD ∷ []) 300 1

abbrev nack_bytes : Bytes
nack_bytes = 0 ∷ 0 ∷ 0 ∷ 5 ∷ 0x0D ∷ 300 ∷ 1 ∷ 0xAB ∷ 0xCD ∷ []

encode-nack : encode toy nack (9 ∷ []) ≡ ok (9 ∷ nack_bytes)
unfolding encode body append_body put_frame to_be
encode-nack = refl

decode_zero_length : decode toy (0 ∷ 0 ∷ 0 ∷ 0 ∷ []) ≡ (0 ∷ 0 ∷ 0 ∷ 0 ∷ [], err zero_length_frame)
unfolding decode head from_be check_length
decode_zero_length = refl

-- A frame of unknown type is consumed.
decode_unknown : decode toy (0 ∷ 0 ∷ 0 ∷ 1 ∷ 0x20 ∷ 7 ∷ []) ≡ (7 ∷ [], err (unknown_type 0x20))
unfolding decode head from_be check_length parse
decode_unknown = refl

decode-encode_example :
    (written : Bytes) × (9 ∷ nack_bytes ≡ 9 ∷ written)
    × ((rest : Bytes) → decode toy (written ++ rest) ≡ (rest, ok (some nack)))
decode-encode_example = decode-encode toy nack (9 ∷ []) (9 ∷ nack_bytes) tt encode-nack

decode_progress_example : Decoded toy nack_bytes (decode toy nack_bytes)
decode_progress_example = decode_progress toy nack_bytes

abbrev app_bytes : Bytes
app_bytes = 0 ∷ 0 ∷ 0 ∷ 3 ∷ 0x05 ∷ 1 ∷ 2 ∷ 3 ∷ []

decode_app : decode toy app_bytes ≡ (3 ∷ [], ok (some (mls_app (1 ∷ 2 ∷ []))))
unfolding decode head from_be check_length parse
decode_app = refl

encode-decode_example :
    (written : Bytes) × (encode toy (mls_app (1 ∷ 2 ∷ [])) [] ≡ ok written)
    × (app_bytes ≡ written ++ 3 ∷ [])
encode-decode_example =
    encode-decode toy app_bytes (3 ∷ []) (mls_app (1 ∷ 2 ∷ [])) (omega arith) refl decode_app
