-- ===== src/Sanitise/Bounds.antt =====
-- Length and inertness of cleaned text.
use jsm.Common.{
  ℕ, ◌≤◌, ◌≢◌, [], ◌∷◌, arith, length, length-take-le, All, All-append, All-take, Bytes,
}
use jsm.Text.{trim_space, escape_string, escape_byte}
use jsm.Sanitise.{clean}

-- The bytes by which a browser leaves text for markup or for an attribute's end.
abbrev pub IsInertByte : ℕ → Type 0
IsInertByte c = (c ≢ b'<') × (c ≢ b'>') × (c ≢ b'"') × (c ≢ b'\'')

abbrev pub IsInert : Bytes → Type 0
IsInert s = All IsInertByte s

escape_byte-IsInert : (c : ℕ) → IsInert (escape_byte c)
unfolding escape_byte
escape_byte-IsInert c = ground arith

escape_string-IsInert : (s : Bytes) → IsInert (escape_string s)
unfolding escape_string
escape_string-IsInert [] = tt
escape_string-IsInert (c ∷ s) =
    All-append IsInertByte (escape_byte c) (escape_string s) (escape_byte-IsInert c)
      (escape_string-IsInert s)

-- A cleaned text has at most `limit` bytes, and none of `<`, `>`, `"` and `'`, whatever was sent.
pub clean_safe :
    (value : Bytes) (limit : ℕ) → (length (clean value limit) ≤ limit) × IsInert (clean value limit)
unfolding clean
clean_safe value limit =
    let s = escape_string (trim_space value) in
    ground (
      arith,
      length-take-le limit s,
      escape_string-IsInert (trim_space value),
      All-take IsInertByte limit s,
    )
