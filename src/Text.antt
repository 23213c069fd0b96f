-- ===== src/Text.antt =====
-- The functions of Go's strings, html and unicode/utf8 packages that the services call, on the
-- bytes of a string.
pub mod Utf8
pub mod Trim
use jsm.Common.{
  ℕ, zero, suc, ◌+◌, ◌&&◌, ◌||◌, [], ◌∷◌, ◌++◌, map, reverse, ltb, leb, ◌==◌, if◌then◌else◌, length,
  drop, all, Bytes, text,
}

-- The white space of unicode.IsSpace at the start of a text in UTF-8: its width in bytes, or 0.
unfoldable pub space_width : Bytes → ℕ
space_width [] = 0
space_width (a ∷ []) = if leb 9 a && leb a 13 || a == 32 then 1 else 0
space_width (a ∷ b ∷ []) =
    if leb 9 a && leb a 13 || a == 32
    then 1
    else if a == 0xc2 && (b == 0x85 || b == 0xa0)
    then 2
    else 0
space_width (a ∷ b ∷ c ∷ s) =
    if leb 9 a && leb a 13 || a == 32
    then 1
    else if a == 0xc2 && (b == 0x85 || b == 0xa0)
    then 2
    else if a == 0xe1 && b == 0x9a && c == 0x80
        || a == 0xe2
          && b == 0x80
          && (leb 0x80 c && leb c 0x8a || c == 0xa8 || c == 0xa9 || c == 0xaf)
        || a == 0xe2 && b == 0x81 && c == 0x9f
        || a == 0xe3 && b == 0x80 && c == 0x80
    then 3
    else 0

-- The same at the end of a text, which is given from its last byte on.
unfoldable pub space_width_back : Bytes → ℕ
unfolding space_width
space_width_back [] = 0
space_width_back (c ∷ []) = space_width (c ∷ [])
space_width_back (c ∷ b ∷ []) =
    if space_width (c ∷ []) == 1 then 1 else if space_width (b ∷ c ∷ []) == 2 then 2 else 0
space_width_back (c ∷ b ∷ a ∷ s) =
    if space_width (c ∷ []) == 1
    then 1
    else if space_width (b ∷ c ∷ []) == 2
    then 2
    else if space_width (a ∷ b ∷ c ∷ []) == 3
    then 3
    else 0

-- Drops white space until there is none; the length is enough fuel.
unfoldable pub strip : (Bytes → ℕ) → ℕ → Bytes → Bytes
strip width zero s = s
strip width (suc fuel) s = elim (width s) [ zero ↦ s | suc w ↦ strip width fuel (drop (suc w) s) ]

-- strings.TrimSpace
unfoldable pub trim_space : Bytes → Bytes
unfolding strip space_width space_width_back
trim_space s =
    let front = strip space_width (length s) s in
    reverse (strip space_width_back (length front) (reverse front))

-- html.EscapeString
unfoldable pub escape_byte : ℕ → Bytes
escape_byte c =
    if c == b'&'
    then text "&amp;"
    else if c == b'\''
    then text "&#39;"
    else if c == b'<'
    then text "&lt;"
    else if c == b'>'
    then text "&gt;"
    else if c == b'"'
    then text "&#34;"
    else c ∷ []

unfoldable pub escape_string : Bytes → Bytes
unfolding escape_byte
escape_string [] = []
escape_string (c ∷ s) = escape_byte c ++ escape_string s

abbrev lower_byte : ℕ → ℕ
lower_byte c = if leb b'A' c && leb c b'Z' then c + 32 else c

-- strings.ToLower: byte by byte on ASCII, and by the case tables of package unicode otherwise.
unfoldable pub to_lower : (Bytes → Bytes) → Bytes → Bytes
to_lower unicode_lower s = if all (λ c. ltb c 128) s then map lower_byte s else unicode_lower s
