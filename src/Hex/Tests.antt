-- ===== src/Hex/Tests.antt =====
-- Hexadecimal text at concrete bytes.
use skattr.Base.{◌≡◌, refl, [], ◌∷◌, Bytes}
use skattr.Hex.{ok, from_hex_char, parse_pairs, parse_fixed}

abbrev two_bytes : Bytes
two_bytes = 0xAB ∷ 7 ∷ []

-- "aB07"
abbrev text : Bytes
text = b'a' ∷ b'B' ∷ b'0' ∷ b'7' ∷ []

parse_text : parse_fixed 2 text ≡ ok two_bytes
unfolding parse_fixed parse_pairs from_hex_char
parse_text = refl
