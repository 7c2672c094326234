-- ===== src/Attachment/Reassembly.antt =====
-- What a run of the reassembler leaves, whatever it is given.
use skattr.Base.{
  ℕ, ◌≡◌, ◌≢◌, refl, ap, ◌⊎◌, inl, inr, List, [], ◌∷◌, ◌++◌, none, some, Bytes, All, ◌-◌, ◌^◌, min,
  length, length-append, same, same_iff, ◌==◌, if◌then◌else◌, arith, Bool-cases,
}
use skattr.Attachment.{
  AttachmentError, aead_failed, size_mismatch, manifest_invalid, cbor_encode, Result, ok, err,
  manifest_version, ChunkRef, AttachmentManifest, Libraries, ChunkSource, chunk_key_material,
  open_chunk, write_chunks, Files, reassemble, to_cbor, from_cbor,
}
use skattr.Attachment.RoundTrip.{bind_elim, ok_or_inv}
use skattr.Wire.{Serde}

Result-cases {ℓ} :
    {A : Type ℓ} (r : Result A) → ((a : A) × (r ≡ ok a)) ⊎ ((e : AttachmentError) × (r ≡ err e))
Result-cases (ok a) = inl (a, refl)
Result-cases (err e) = inr (e, refl)

module _ (libs : Libraries) where
  -- The source has the chunk that the manifest names, and it opens to something.
  abbrev pub Verified : Bytes → ChunkSource → ChunkRef → Type 0
  Verified key source r =
      (ct : Bytes) × (km : Bytes) × (plain : Bytes) × (source r.index ≡ ok ct)
      × (libs.sha256 ct ≡ r.ciphertext_hash)
      × (chunk_key_material libs key r.index ≡ ok km)
      × (libs.decrypt km ct ≡ some plain)

  open_chunk-Verified :
      (key : Bytes) (source : ChunkSource) (r : ChunkRef) (plain : Bytes)
      → open_chunk libs key source r ≡ ok plain
      → Verified key source r
  unfolding open_chunk
  open_chunk-Verified key source r plain e = bind_elim (source r.index) _ e (λ ct e₁ k₁.
      elim (Bool-cases (same (libs.sha256 ct) r.ciphertext_hash)) [
        | inl t ↦
            bind_elim (chunk_key_material libs key r.index) _ (rw (t, if◌then◌else◌) at k₁)
              (λ km e₂ k₂. (
                ct,
                km,
                plain,
                e₁,
                (same_iff (libs.sha256 ct) r.ciphertext_hash).0 t,
                e₂,
                ok_or_inv aead_failed _ plain k₂,
              ))
        | inr f ↦ absurd (ground (arith, k₁, f))
      ])

  write_chunks-Verified :
      (key : Bytes) (source : ChunkSource) (refs : List ChunkRef) (out : Bytes) (n : ℕ)
      {out' : Bytes} {n' : ℕ}
      → write_chunks libs key source refs out n ≡ ok (out', n')
      → All (Verified key source) refs
  unfolding write_chunks
  write_chunks-Verified key source [] out n e = tt
  write_chunks-Verified key source (r ∷ refs) out n e =
      bind_elim (open_chunk libs key source r) _ e (λ plain e₁ k₁. (
        open_chunk-Verified key source r plain e₁,
        write_chunks-Verified key source refs (out ++ plain) _ k₁,
      ))

  write_chunks-count :
      (key : Bytes) (source : ChunkSource) (refs : List ChunkRef) (out : Bytes) (n : ℕ)
      {out' : Bytes} {n' : ℕ}
      → n ≡ min (length out) (2 ^ 64 - 1)
      → write_chunks libs key source refs out n ≡ ok (out', n')
      → n' ≡ min (length out') (2 ^ 64 - 1)
  unfolding write_chunks
  write_chunks-count key source [] out n {out'} {n'} h e =
      let a : out ≡ out' = cc in let b : n ≡ n' = cc in omega (arith, h, b, ap length a)
  write_chunks-count key source (r ∷ refs) out n h e =
      bind_elim (open_chunk libs key source r) _ e (λ plain e₁ k₁.
        write_chunks-count key source refs (out ++ plain) _
          (omega (arith, h, length-append out plain)) k₁)

  -- The reassembler leaves no temporary file. It succeeds only if the source has every chunk of the
  -- manifest with its hash and each opens; then the output is as long as the manifest says, as far
  -- as a u64 counts. On an error the output file is what it was.
  pub reassemble_cases :
      (m : AttachmentManifest) (source : ChunkSource) (d : Files)
      → let (d', r) = reassemble libs m source d in
        (d'.temp ≡ none)
        × (((r ≡ ok tt)
              × All (Verified m.file_key source) m.chunks
              × ((out : Bytes) × (d'.output ≡ some out)
                  × (m.total_size ≡ min (length out) (2 ^ 64 - 1))))
            ⊎ ((e : AttachmentError) × (r ≡ err e) × (d'.output ≡ d.output)))
  unfolding reassemble
  reassemble_cases m source d =
      elim (Result-cases (write_chunks libs m.file_key source m.chunks [] 0)) [
        | inr (e, w) ↦ rw (w, reassemble) (refl, inr (e, refl, refl))
        | inl ((out, n), w) ↦ elim (Bool-cases (n == m.total_size)) [
          | inr f ↦ rw (w, reassemble, f, if◌then◌else◌) (refl, inr (size_mismatch, refl, refl))
          | inl t ↦
              let count = write_chunks-count m.file_key source m.chunks [] 0 (omega arith) w in
              let size : m.total_size ≡ min (length out) (2 ^ 64 - 1) = ground (arith, t, count) in
              rw (w, reassemble, t, if◌then◌else◌)
                (
                  refl,
                  inl (
                    refl,
                    write_chunks-Verified m.file_key source m.chunks [] 0 w,
                    (out, refl, size),
                  ),
                )
        ]
      ]

module _ (cbor : Serde AttachmentManifest) where
  -- A manifest that was encoded is decoded to itself if it has the version that is known, and is
  -- refused otherwise.
  pub from_cbor-to_cbor :
      (m : AttachmentManifest) (bytes : Bytes)
      → to_cbor cbor m ≡ ok bytes
      → ((m.manifest_version ≡ manifest_version) × (from_cbor cbor bytes ≡ ok m))
        ⊎ ((m.manifest_version ≢ manifest_version) × (from_cbor cbor bytes ≡ err manifest_invalid))
  unfolding to_cbor from_cbor
  from_cbor-to_cbor m bytes e =
      let back = cbor.reads_back m bytes (ok_or_inv cbor_encode _ bytes e) in
      elim (Bool-cases (m.manifest_version == manifest_version)) [
        | inl t ↦ inl (ground (arith, t), rw (back, t, if◌then◌else◌) refl)
        | inr f ↦ inr (ground (arith, f), rw (back, f, if◌then◌else◌) refl)
      ]
