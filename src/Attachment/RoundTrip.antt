-- ===== src/Attachment/RoundTrip.antt =====
-- What the chunker makes, the reassembler puts together again.
use skattr.Base.{
  ℕ, zero, suc, ◌+◌, ◌-◌, ◌≤◌, ◌<◌, ◌^◌, ◌≡◌, refl, sym, ap, ◌∙◌, subst, inl, inr, true, List, [],
  ◌∷◌, ◌++◌, Option, none, some, Bytes, length, length-append, take, drop, take-append-drop,
  length-drop, get_elem?, min, ltb, ◌==◌, if◌then◌else◌, same_refl, arith, Bool-cases,
}
use mathlib.Core.List.{append_assoc, append-nil}
use skattr.Attachment.{
  chunk_size, AttachmentError, too_large, size_mismatch, Result, ok, err, ◌>>=◌, ok_or, ChunkRef,
  AttachmentManifest, Libraries, chunks_of, chunk_key_material, seal_chunk, seal_chunks,
  chunk_plaintext_with_cap, ChunkSource, as_u32, aead_failed, open_chunk, write_chunks, Files,
  reassemble,
}

abbrev pub joined : List Bytes → Bytes
joined [] = []
joined (p ∷ ps) = p ++ joined ps

joined-chunks_of :
    (fuel n : ℕ) (xs : Bytes) → length xs ≤ fuel → 0 < n → joined (chunks_of fuel n xs) ≡ xs
unfolding chunks_of
joined-chunks_of fuel n [] le pos = refl
joined-chunks_of zero n (x ∷ xs) le pos = absurd (omega arith)
joined-chunks_of (suc fuel) n (x ∷ xs) le pos =
    ap (λ ys. take n (x ∷ xs) ++ ys)
      (joined-chunks_of fuel n (drop n (x ∷ xs)) (omega (arith, length-drop n (x ∷ xs))) pos)
    ∙ take-append-drop n (x ∷ xs)

-- What follows from a successful bind, given what follows from its two steps.
pub bind_elim {ℓ κ ι} :
    {A : Type ℓ} {B : Type κ} {C : Type ι} (m : Result A) (f : A → Result B) {b : B}
    → (m >>= f) ≡ ok b
    → ((a : A) → m ≡ ok a → f a ≡ ok b → C)
    → C
bind_elim (ok a) f h k = k a refl h
bind_elim (err e) f h k = absurd cc

as_u32_inv : (e : AttachmentError) (n m : ℕ) → as_u32 e n ≡ ok m → m ≡ n
as_u32_inv e n m h = ground (arith, h)

pub ok_or_inv {ℓ} :
    {A : Type ℓ} (e : AttachmentError) (o : Option A) (a : A) → ok_or e o ≡ ok a → o ≡ some a
ok_or_inv e none a h = cc
ok_or_inv e (some x) a h = cc

abbrev manifest_or :
    AttachmentManifest → Result (AttachmentManifest × List Bytes) → AttachmentManifest
manifest_or m (ok (m', _)) = m'
manifest_or m (err e) = m

module _ (libs : Libraries) where
  open_step :
      (key : Bytes) (source : ChunkSource) (index len : ℕ) (km ct plain : Bytes)
      → source index ≡ ok ct
      → chunk_key_material libs key index ≡ ok km
      → libs.decrypt km ct ≡ some plain
      → open_chunk libs key source
          (record { index = index; ciphertext_hash = libs.sha256 ct; len = len })
        ≡ ok plain
  unfolding open_chunk
  open_step key source index len km ct plain s k d =
      rw (s, same_refl (libs.sha256 ct), k, d, if◌then◌else◌) refl

  seal-open :
      (key : Bytes) (source : ChunkSource) (i : ℕ) (plain : Bytes) (r : ChunkRef) (ct : Bytes)
      → seal_chunk libs key i plain ≡ ok (r, ct)
      → source i ≡ ok ct
      → open_chunk libs key source r ≡ ok plain
  unfolding seal_chunk
  seal-open key source i plain r ct e s = bind_elim (as_u32 too_large i) _ e (λ index e₁ k₁.
      bind_elim (chunk_key_material libs key index) _ k₁ (λ km e₂ k₂.
        bind_elim (ok_or aead_failed (libs.encrypt km plain)) _ k₂ (λ ct' e₃ k₃.
          bind_elim (as_u32 size_mismatch (length ct')) _ k₃ (λ len e₄ k₄.
            let ref : ChunkRef = record {
              index = index;
              ciphertext_hash = libs.sha256 ct';
              len = len;
            } in
            let eq : ◌≡◌ {A = ChunkRef × Bytes} (ref, ct') (r, ct) = cc in
            let s' : source index ≡ ok ct' =
              ap source (as_u32_inv too_large i index e₁) ∙ (s ∙ ap (λ x. ok (x.1)) (sym eq)) in
            subst (λ x. open_chunk libs key source x ≡ ok plain) (ap (λ x. x.0) eq)
              (open_step key source index len km ct' plain s' e₂
                (libs.opens km plain ct' (ok_or_inv aead_failed _ ct' e₃)))))))

  write-seal :
      (key : Bytes) (source : ChunkSource) (i : ℕ) (ps : List Bytes) (refs : List ChunkRef)
      (cts : List Bytes) (out : Bytes) (written : ℕ)
      → seal_chunks libs key i ps ≡ ok (refs, cts)
      → ((j : ℕ) (ct : Bytes) → get_elem? cts j ≡ some ct → source (i + j) ≡ ok ct)
      → written + length (joined ps) < 2 ^ 64
      → write_chunks libs key source refs out written
        ≡ ok (out ++ joined ps, written + length (joined ps))
  unfolding seal_chunks write_chunks
  write-seal key source i [] refs cts out written e s small =
      let no_refs : ◌≡◌ {A = List ChunkRef} [] refs = cc in
      let same_out : out ++ [] ≡ out = append-nil out in
      let same_count : written + 0 ≡ written = omega arith in
      subst (λ x. write_chunks libs key source x out written ≡ ok (out ++ [], written + 0)) no_refs
        cc
  write-seal key source i (p ∷ ps) refs cts out written e s small =
      bind_elim (seal_chunk libs key i p) _ e (λ x e₁ k₁.
        bind_elim (seal_chunks libs key (suc i) ps) _ k₁ (λ y e₂ k₂.
          let refs-eq : x.0 ∷ y.0 ≡ refs = cc in
          let cts-eq : x.1 ∷ y.1 ≡ cts = cc in
          let at : (j : ℕ) (ct : Bytes)
              → get_elem? (x.1 ∷ y.1) j ≡ some ct
              → source (i + j) ≡ ok ct =
            λ j ct g. s j ct (subst (λ z. get_elem? z j ≡ some ct) cts-eq g) in
          let total : written + length (p ++ joined ps) ≡ written + length p + length (joined ps) =
            omega (arith, length-append p (joined ps)) in
          let rest =
            write-seal key source (suc i) ps y.0 y.1 (out ++ p) (written + length p) e₂
              (λ j ct g.
                subst (λ n. source n ≡ ok ct) (let n : i + suc j ≡ suc i + j = omega arith in n)
                  (at (suc j) ct g))
              (omega (arith, small, total)) in
          let first = seal-open key source i p x.0 x.1 e₁ (
            subst (λ n. source n ≡ ok x.1) (let n : i + 0 ≡ i = omega arith in n)
              (at 0 x.1 refl)) in
          let count : min (written + length p) (2 ^ 64 - 1) ≡ written + length p =
            omega (arith, small, total) in
          subst
            (λ z.
              write_chunks libs key source z out written
              ≡ ok (out ++ (p ++ joined ps), written + length (p ++ joined ps)))
            refs-eq (rw (first, count, total, ← append_assoc out p (joined ps)) rest)))

  reassemble_written :
      (m : AttachmentManifest) (source : ChunkSource) (d : Files) (out : Bytes) (n : ℕ)
      → write_chunks libs m.file_key source m.chunks [] 0 ≡ ok (out, n)
      → n ≡ m.total_size
      → reassemble libs m source d ≡ (record { output = some out; temp = none }, ok tt)
  unfolding reassemble
  reassemble_written m source d out n w t =
      let same_size : (n == m.total_size) ≡ true = ground (arith, t) in
      rw (w, reassemble, same_size, if◌then◌else◌) refl

  -- Whatever the random id and key, the plaintext that was chunked is the file that its manifest and
  -- its chunks give, if the source serves each chunk under its index.
  pub reassemble-chunk_plaintext :
      (id key plaintext : Bytes) (filename mime : List ℕ) (max_bytes : ℕ) (m : AttachmentManifest)
      (cts : List Bytes) (source : ChunkSource) (d : Files)
      → chunk_plaintext_with_cap libs id key plaintext filename mime max_bytes ≡ ok (m, cts)
      → ((i : ℕ) (ct : Bytes) → get_elem? cts i ≡ some ct → source i ≡ ok ct)
      → length plaintext < 2 ^ 64
      → reassemble libs m source d ≡ (record { output = some plaintext; temp = none }, ok tt)
  unfolding chunk_plaintext_with_cap reassemble
  reassemble-chunk_plaintext id key plaintext filename mime max_bytes m cts source d e serves
        small =
      elim (Bool-cases (ltb max_bytes (length plaintext))) [
        | inl t ↦ absurd (ground (arith, e, t))
        | inr f ↦
            let pieces = chunks_of (length plaintext) chunk_size plaintext in
            bind_elim (seal_chunks libs key 0 pieces) _ (rw (f, if◌then◌else◌) at e) (λ x e₁ k.
              let whole =
                joined-chunks_of (length plaintext) chunk_size plaintext (omega arith)
                  (omega arith) in
              let sizes : length (joined pieces) ≡ length plaintext = ap length whole in
              let cts-eq : x.1 ≡ cts = cc in
              let written =
                write-seal key source 0 pieces x.0 x.1 [] 0 e₁
                  (λ j ct g.
                    subst (λ n. source n ≡ ok ct) (let n : j ≡ 0 + j = omega arith in n)
                      (serves j ct (subst (λ z. get_elem? z j ≡ some ct) cts-eq g)))
                  (omega (arith, small, sizes)) in
              let total : 0 + length (joined pieces) ≡ m.total_size =
                omega (arith, sizes, ap (λ r. (manifest_or m r).total_size) k) in
              reassemble_written m source d plaintext (0 + length (joined pieces))
                (subst
                  (λ z.
                    write_chunks libs m.file_key source z [] 0
                    ≡ ok (plaintext, 0 + length (joined pieces)))
                  (ap (λ r. (manifest_or m r).chunks) k)
                  (subst
                    (λ z.
                      write_chunks libs z source x.0 [] 0
                      ≡ ok (plaintext, 0 + length (joined pieces)))
                    (ap (λ r. (manifest_or m r).file_key) k)
                    (written ∙ ap (λ z. ok (z, 0 + length (joined pieces))) whole)))
                total)
      ]
