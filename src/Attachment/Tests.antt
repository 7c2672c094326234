-- ===== src/Attachment/Tests.antt =====
-- A small attachment, with the identity in place of the ciphers and of the hash.
use skattr.Base.{
  ℕ, ◌-◌, ◌^◌, ◌≡◌, ◌⊎◌, refl, sym, [], ◌∷◌, Option, none, some, Bytes, length, min, get_elem?,
  arith, All, select,
}
use skattr.Wire.{Serde, to_be}
use skattr.Attachment.{
  AttachmentError, no_chunk, ok, err, ok_or, AttachmentManifest, Libraries, ChunkSource, chunks_of,
  chunk_key_material, seal_chunk, seal_chunks, chunk_plaintext_with_cap, Files, reassemble,
}
use skattr.Attachment.RoundTrip.{reassemble-chunk_plaintext}
use skattr.Attachment.Reassembly.{Verified, reassemble_cases}
use skattr.Attachment.Filename.{
  sanitize_filename, last_part_from, trim_start, trim_end, all_dots, is_blank,
}

abbrev toy : Libraries
toy = record {
  hkdf_expand = λ key info. some key;
  encrypt = λ km plain. some plain;
  decrypt = λ km ct. some ct;
  opens = λ km plain ct e. sym e;
  sha256 = λ bytes. bytes;
}

abbrev plaintext : Bytes
plaintext = 1 ∷ 2 ∷ []

abbrev manifest : AttachmentManifest
manifest = record {
  manifest_version = 1;
  attachment_id = 6 ∷ [];
  filename = b'x' ∷ [];
  mime = [];
  total_size = 2;
  chunk_size = 49152;
  file_key = 5 ∷ [];
  chunks = record { index = 0; ciphertext_hash = plaintext; len = 2 } ∷ [];
}

abbrev source : ChunkSource
source i = ok_or no_chunk (get_elem? (plaintext ∷ []) i)

abbrev nothing : Files
nothing = record { output = none; temp = none }

chunk_small :
    chunk_plaintext_with_cap toy (6 ∷ []) (5 ∷ []) plaintext (b'/' ∷ b'x' ∷ []) [] 100
    ≡ ok (manifest, plaintext ∷ [])
unfolding chunk_plaintext_with_cap seal_chunks seal_chunk chunk_key_material chunks_of to_be
    sanitize_filename last_part_from trim_start trim_end all_dots is_blank select
chunk_small = refl

reassemble-chunk_plaintext_example :
    reassemble toy manifest source nothing
    ≡ (record { output = some plaintext; temp = none }, ok tt)
reassemble-chunk_plaintext_example =
    reassemble-chunk_plaintext toy (6 ∷ []) (5 ∷ []) plaintext (b'/' ∷ b'x' ∷ []) [] 100 manifest
      (plaintext ∷ []) source nothing chunk_small (λ i ct e. rw e refl) (omega arith)

reassemble_cases_example :
    let (d', r) = reassemble toy manifest (λ i. ok (3 ∷ [])) nothing in
    (d'.temp ≡ none)
    × (((r ≡ ok tt)
          × All (Verified toy (5 ∷ []) (λ i. ok (3 ∷ []))) manifest.chunks
          × ((out : Bytes) × (d'.output ≡ some out) × (2 ≡ min (length out) (2 ^ 64 - 1))))
        ⊎ ((e : AttachmentError) × (r ≡ err e) × (d'.output ≡ none)))
reassemble_cases_example = reassemble_cases toy manifest (λ i. ok (3 ∷ [])) nothing

-- Dots that stand between characters that are dropped are not trimmed.
sanitize_dots : sanitize_filename (0x202E ∷ b'.' ∷ b'.' ∷ 0x202E ∷ []) ≡ b'.' ∷ b'.' ∷ []
unfolding sanitize_filename last_part_from trim_start trim_end all_dots is_blank select
sanitize_dots = refl

-- An encoding of the manifests that have numbers and a key only.
abbrev write_manifest : AttachmentManifest → Option Bytes
write_manifest m = elim m.chunks [
  | _ ∷ _ ↦ none
  | [] ↦ elim m.filename [
    | _ ∷ _ ↦ none
    | [] ↦ elim m.mime [
      | _ ∷ _ ↦ none
      | [] ↦ elim m.attachment_id [
        | _ ∷ _ ↦ none
        | [] ↦ some (m.manifest_version ∷ m.total_size ∷ m.chunk_size ∷ m.file_key)
      ]
    ]
  ]
]

abbrev bare : (version total size : ℕ) → Bytes → AttachmentManifest
bare version total size key = record {
  manifest_version = version;
  attachment_id = [];
  filename = [];
  mime = [];
  total_size = total;
  chunk_size = size;
  file_key = key;
  chunks = [];
}

abbrev read_manifest : Bytes → Option AttachmentManifest
read_manifest (version ∷ total ∷ size ∷ key) = some (bare version total size key)
read_manifest _ = none

abbrev toy_manifest : Serde AttachmentManifest
toy_manifest = record {
  into_writer = write_manifest;
  from_reader = read_manifest;
  reads_back = λ m bytes e. ground arith;
}
