-- ===== src/Attachment.antt =====
-- crates/core/src/attachment: mod.rs, error_kind.rs, manifest.rs, chunker.rs and reassembler.rs, and
-- `chunk_key_material` of crates/core/src/identity/derive.rs. HKDF, XChaCha20-Poly1305 and SHA-256
-- are libraries: parameters. The random id and key are arguments. Of the file system there are the
-- output file and the temporary one; it serves every call.
pub mod Filename
pub mod RoundTrip
pub mod Reassembly
mod Tests
use skattr.Base.{
  ◌≡◌, ℕ, zero, suc, ◌+◌, ◌-◌, ◌*◌, ◌^◌, Bool, not, List, [], ◌∷◌, ◌++◌, Option, none, some, Bytes,
  length, take, drop, min, ltb, ◌==◌, if◌then◌else◌, same,
}
use skattr.Wire.{to_be, Serde}
use skattr.Attachment.Filename.{sanitize_filename}

abbrev pub chunk_size : ℕ
chunk_size = 49152

abbrev pub max_attachment_bytes : ℕ
max_attachment_bytes = 100 * 1024 * 1024

abbrev pub manifest_version : ℕ
manifest_version = 1

-- The kinds that these functions give, and the errors of the libraries and of a chunk source.
pub data AttachmentError : Type 0 where
  too_large chunk_hash_mismatch aead_failed size_mismatch manifest_invalid : AttachmentError
  cbor_encode cbor_decode hkdf no_chunk : AttachmentError

pub data Result {ℓ} (A : Type ℓ) : Type ℓ where
  ok : A → Result A
  err : AttachmentError → Result A

infixl 5 ◌>>=◌
abbrev pub ◌>>=◌ {ℓ κ} : {A : Type ℓ} {B : Type κ} → Result A → (A → Result B) → Result B
ok a >>= f = f a
err e >>= f = err e

abbrev pub ok_or {ℓ} : {A : Type ℓ} → AttachmentError → Option A → Result A
ok_or e none = err e
ok_or e (some a) = ok a

pub record ChunkRef : Type 0 where
  pub index : ℕ
  pub ciphertext_hash : Bytes
  pub len : ℕ

pub record AttachmentManifest : Type 0 where
  pub manifest_version : ℕ
  pub attachment_id : Bytes
  pub filename : List ℕ
  pub mime : List ℕ
  pub total_size : ℕ
  pub chunk_size : ℕ
  pub file_key : Bytes
  pub chunks : List ChunkRef

module _ (cbor : Serde AttachmentManifest) where
  unfoldable pub to_cbor : AttachmentManifest → Result Bytes
  to_cbor m = ok_or cbor_encode (cbor.into_writer m)

  unfoldable pub from_cbor : Bytes → Result AttachmentManifest
  from_cbor bytes = ok_or cbor_decode (cbor.from_reader bytes) >>= λ m.
      if m.manifest_version == manifest_version then ok m else err manifest_invalid

-- HKDF-SHA256 from a key and an info to the key material of a chunk, the AEAD under that, and
-- SHA-256. What one encrypts, the other decrypts.
pub record Libraries : Type 0 where
  pub hkdf_expand : Bytes → Bytes → Option Bytes
  pub encrypt : Bytes → Bytes → Option Bytes
  pub decrypt : Bytes → Bytes → Option Bytes
  pub opens : (km plain ct : Bytes) → encrypt km plain ≡ some ct → decrypt km ct ≡ some plain
  pub sha256 : Bytes → Bytes

-- b"skattr-attach-v1"
abbrev info_attach_v1 : Bytes
info_attach_v1 =
    b's' ∷ b'k' ∷ b'a' ∷ b't' ∷ b't' ∷ b'r' ∷ b'-' ∷ b'a' ∷ b't' ∷ b't' ∷ b'a' ∷ b'c' ∷ b'h' ∷ b'-'
    ∷ b'v' ∷ b'1' ∷ []

-- `chunks(CHUNK_SIZE)`. The fuel is the number of bytes.
unfoldable pub chunks_of : ℕ → ℕ → Bytes → List Bytes
chunks_of fuel n [] = []
chunks_of zero n (b ∷ bs) = []
chunks_of (suc fuel) n (b ∷ bs) = take n (b ∷ bs) ∷ chunks_of fuel n (drop n (b ∷ bs))

-- `u32::try_from`
abbrev pub as_u32 : AttachmentError → ℕ → Result ℕ
as_u32 e n = if ltb n (2 ^ 32) then ok n else err e

pub record Files : Type 0 where
  pub output : Option Bytes
  pub temp : Option Bytes

-- On every error the guard removes the temporary file.
abbrev pub fail : Files → AttachmentError → Files × Result (Unit {0})
fail d e = (record { output = d.output; temp = none }, err e)

-- `ChunkSource::get`
abbrev pub ChunkSource : Type 0
ChunkSource = ℕ → Result Bytes

module _ (libs : Libraries) where
  unfoldable pub chunk_key_material : Bytes → ℕ → Result Bytes
  chunk_key_material file_key index =
      ok_or hkdf (libs.hkdf_expand file_key (info_attach_v1 ++ to_be index))

  -- One turn of the loop of the chunker.
  unfoldable pub seal_chunk : Bytes → ℕ → Bytes → Result (ChunkRef × Bytes)
  unfolding chunk_key_material
  seal_chunk file_key i plain = do
    index ← as_u32 too_large i
    km ← chunk_key_material file_key index
    ct ← ok_or aead_failed (libs.encrypt km plain)
    len ← as_u32 size_mismatch (length ct)
    ok (record { index = index; ciphertext_hash = libs.sha256 ct; len = len }, ct)

  unfoldable pub seal_chunks : Bytes → ℕ → List Bytes → Result (List ChunkRef × List Bytes)
  unfolding seal_chunk
  seal_chunks file_key i [] = ok ([], [])
  seal_chunks file_key i (plain ∷ rest) = do
    (r, ct) ← seal_chunk file_key i plain
    (refs, chunks) ← seal_chunks file_key (suc i) rest
    ok (r ∷ refs, ct ∷ chunks)

  unfoldable pub chunk_plaintext_with_cap :
      (attachment_id file_key plaintext : Bytes) (filename mime : List ℕ) (max_bytes : ℕ)
      → Result (AttachmentManifest × List Bytes)
  unfolding chunks_of seal_chunks sanitize_filename
  chunk_plaintext_with_cap attachment_id file_key plaintext filename mime max_bytes =
      if ltb max_bytes (length plaintext)
      then err too_large
      else (seal_chunks file_key 0 (chunks_of (length plaintext) chunk_size plaintext) >>= λ x. ok (
        record {
          manifest_version = manifest_version;
          attachment_id = attachment_id;
          filename = sanitize_filename filename;
          mime = mime;
          total_size = length plaintext;
          chunk_size = chunk_size;
          file_key = file_key;
          chunks = x.0;
        },
        x.1,
      ))

  abbrev pub chunk_plaintext :
      (attachment_id file_key plaintext : Bytes) (filename mime : List ℕ)
      → Result (AttachmentManifest × List Bytes)
  chunk_plaintext attachment_id file_key plaintext filename mime =
      chunk_plaintext_with_cap attachment_id file_key plaintext filename mime max_attachment_bytes

  -- One turn of the loop of the reassembler: the hash is checked before the ciphertext is opened.
  unfoldable pub open_chunk : Bytes → ChunkSource → ChunkRef → Result Bytes
  unfolding chunk_key_material
  open_chunk file_key source r = source r.index >>= λ ct.
      if same (libs.sha256 ct) r.ciphertext_hash
      then (chunk_key_material file_key r.index >>= λ km. ok_or aead_failed (libs.decrypt km ct))
      else err chunk_hash_mismatch

  -- The bytes in the temporary file and the count, after the loop or when it stops.
  unfoldable pub write_chunks : Bytes → ChunkSource → List ChunkRef → Bytes → ℕ → Result (Bytes × ℕ)
  unfolding open_chunk
  write_chunks file_key source [] out written = ok (out, written)
  write_chunks file_key source (r ∷ refs) out written = open_chunk file_key source r >>= λ plain.
      write_chunks file_key source refs (out ++ plain) (min (written + length plain) (2 ^ 64 - 1))

  unfoldable pub reassemble : AttachmentManifest → ChunkSource → Files → Files × Result (Unit {0})
  unfolding write_chunks
  reassemble manifest source d = elim (write_chunks manifest.file_key source manifest.chunks [] 0) [
    | err e ↦ fail d e
    | ok (out, written) ↦
        if written == manifest.total_size
        then (record { output = some out; temp = none }, ok tt)
        else fail d size_mismatch
  ]
