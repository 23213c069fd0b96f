-- ===== src/RateLimit/ClientIp/Forwarded.antt =====
-- splitForwarded: the records of an RFC 7239 header, split at commas outside quoted strings.
pub mod Join
use jsm.Common.{
  ℕ, Bool, true, false, Option, none, some, List, [], ◌∷◌, ◌++◌, ◌==◌, if◌then◌else◌, Bytes,
}
use jsm.Text.{trim_space}

-- The variables of the loop; `current` is header[start:i].
pub record Scan : Type 0 where
  pub in_quotes : Bool
  pub escaped : Bool
  pub current : Bytes
  pub entries : List Bytes

unfoldable pub scan_byte : Scan → ℕ → Scan
scan_byte s c =
    let longer = record s { current = s.current ++ c ∷ [] } in
    if s.in_quotes
    then if s.escaped
      then record longer { escaped = false }
      else if c == b'\\'
      then record longer { escaped = true }
      else if c == b'"'
      then record longer { in_quotes = false }
      else longer
    else if c == b'"'
    then record longer { in_quotes = true }
    else if c == b','
    then record s { current = []; entries = s.entries ++ trim_space s.current ∷ [] }
    else longer

unfoldable pub scan : Scan → Bytes → Scan
unfolding scan_byte
scan s [] = s
scan s (c ∷ cs) = scan (scan_byte s c) cs

abbrev start : Scan
start = record { in_quotes = false; escaped = false; current = []; entries = [] }

unfoldable pub split_forwarded : Bytes → Option (List Bytes)
unfolding scan
split_forwarded header =
    let last = scan start header in
    if last.in_quotes then none else some (last.entries ++ trim_space last.current ∷ [])
