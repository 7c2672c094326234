-- ===== src/Attachment/Filename.antt =====
-- `sanitize_filename` of crates/core/src/attachment/manifest.rs. A text is the list of its
-- characters, a character its code point.
pub mod Safe
use skattr.Base.{
  ℕ, Bool, true, false, not, ◌&&◌, ◌||◌, List, [], ◌∷◌, ◌++◌, length, leb, ltb, ◌==◌, if◌then◌else◌,
  select,
}

abbrev pub is_separator : ℕ → Bool
is_separator c = c == 0x2F || c == 0x5C

-- `char::is_control`: the category Cc.
abbrev pub is_control : ℕ → Bool
is_control c = ltb c 0x20 || (leb 0x7F c && leb c 0x9F)

-- `char::is_whitespace`: the property White_Space.
abbrev pub is_whitespace : ℕ → Bool
is_whitespace c =
    (leb 0x09 c && leb c 0x0D)
    || c == 0x20
    || c == 0x85
    || c == 0xA0
    || c == 0x1680
    || (leb 0x2000 c && leb c 0x200A)
    || c == 0x2028
    || c == 0x2029
    || c == 0x202F
    || c == 0x205F
    || c == 0x3000

abbrev pub is_bidi_or_format_control : ℕ → Bool
is_bidi_or_format_control c =
    c == 0x200E || c == 0x200F || (leb 0x202A c && leb c 0x202E) || (leb 0x2066 c && leb c 0x2069)

-- `rsplit(['/', '\\']).next()`: what follows the last separator.
unfoldable pub last_part_from : List ℕ → List ℕ → List ℕ
last_part_from part [] = part
last_part_from part (c ∷ cs) =
    if is_separator c then last_part_from [] cs else last_part_from (part ++ (c ∷ [])) cs

-- `trim_start_matches('.')` and `trim_end_matches('.')`, which make up `trim_matches`.
unfoldable pub trim_start : List ℕ → List ℕ
trim_start [] = []
trim_start (c ∷ cs) = if c == 0x2E then trim_start cs else c ∷ cs

unfoldable pub all_dots : List ℕ → Bool
all_dots [] = true
all_dots (c ∷ cs) = c == 0x2E && all_dots cs

unfoldable pub trim_end : List ℕ → List ℕ
unfolding all_dots
trim_end [] = []
trim_end (c ∷ cs) = if all_dots (c ∷ cs) then [] else c ∷ trim_end cs

-- `trim().is_empty()`
unfoldable pub is_blank : List ℕ → Bool
is_blank [] = true
is_blank (c ∷ cs) = is_whitespace c && is_blank cs

abbrev pub is_kept : ℕ → Bool
is_kept c = not (is_control c) && not (is_bidi_or_format_control c) && not (is_separator c)

-- "attachment"
abbrev pub attachment : List ℕ
attachment = b'a' ∷ b't' ∷ b't' ∷ b'a' ∷ b'c' ∷ b'h' ∷ b'm' ∷ b'e' ∷ b'n' ∷ b't' ∷ []

unfoldable pub sanitize_filename : List ℕ → List ℕ
unfolding last_part_from trim_start trim_end is_blank
sanitize_filename raw =
    let base = trim_end (trim_start (last_part_from [] raw)) in
    let cleaned = select is_kept base in if is_blank cleaned then attachment else cleaned
