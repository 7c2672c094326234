-- ===== src/Attachment/Filename/Safe.antt =====
-- What a sanitized name has.
use skattr.Base.{
  ℕ, ◌≡◌, refl, inl, inr, false, List, [], All, All-intro, Has-select_inv, select, if◌then◌else◌,
  Bool-cases, arith,
}
use skattr.Attachment.Filename.{
  is_kept, is_blank, is_separator, is_control, is_bidi_or_format_control, sanitize_filename,
  last_part_from, trim_start, trim_end, attachment,
}

abbrev pub IsPlain : ℕ → Type 0
IsPlain c =
    (is_separator c ≡ false) × (is_control c ≡ false) × (is_bidi_or_format_control c ≡ false)

kept-IsPlain : (cs : List ℕ) → All IsPlain (select is_kept cs)
kept-IsPlain cs =
    All-intro IsPlain (select is_kept cs)
      (λ c m. let (k, _) = Has-select_inv is_kept c cs m in ground (arith, k))

-- A sanitized name has no separator, no control character and no bidirectional control, and is not
-- blank.
pub sanitize_filename-safe :
    (raw : List ℕ)
    → All IsPlain (sanitize_filename raw) × (is_blank (sanitize_filename raw) ≡ false)
unfolding sanitize_filename is_blank select
sanitize_filename-safe raw =
    let base = trim_end (trim_start (last_part_from [] raw)) in
    elim (Bool-cases (is_blank (select is_kept base))) [
      | inl e ↦ rw (e, if◌then◌else◌) (kept-IsPlain attachment, refl)
      | inr e ↦ rw (e, if◌then◌else◌) (kept-IsPlain base, e)
    ]
