-- ===== src/RateLimit/ClientIp/Forwarded/Join.antt =====
-- splitForwarded against the grammar of its entries.
use jsm.Common.{
  ◌≡◌, refl, sym, ap, ◌∙◌, Bool, true, false, not, ◌&&◌, some, List, [], ◌∷◌, ◌++◌, map, arith,
  ◌==◌, if◌then◌else◌, All, Bytes, append-nil, append_assoc,
}
use jsm.Text.{trim_space}
use jsm.RateLimit.ClientIp.Forwarded.{Scan, scan, scan_byte, split_forwarded}

-- An entry: every quoted string is closed, a backslash in it quotes the next byte, and no comma
-- stands outside.
abbrev pub is_entry : (in_quotes escaped : Bool) → Bytes → Bool
is_entry true escaped [] = false
is_entry false escaped [] = true
is_entry true true (c ∷ s) = is_entry true false s
is_entry true false (c ∷ s) =
    if c == b'\\'
    then is_entry true true s
    else if c == b'"'
    then is_entry false false s
    else is_entry true false s
is_entry false escaped (c ∷ s) =
    if c == b'"' then is_entry true false s else not (c == b',') && is_entry false false s

abbrev pub IsEntry : Bytes → Type 0
IsEntry s = is_entry false false s ≡ true

abbrev state : Bool → Bool → Bytes → List Bytes → Scan
state in_quotes escaped current entries = record {
  in_quotes = in_quotes;
  escaped = escaped;
  current = current;
  entries = entries;
}

scan_entry :
    (q x : Bool) (s current : Bytes) (entries : List Bytes)
    → is_entry q (q && x) s ≡ true
    → scan (state q (q && x) current entries) s ≡ state false false (current ++ s) entries
unfolding scan
scan_entry true x [] current entries h = cc
scan_entry false x [] current entries h =
    ap (λ r. state false false r entries) (sym (append-nil current))
scan_entry true true (c ∷ s) current entries h =
    scan_entry true false s (current ++ c ∷ []) entries h
    ∙ ap (λ r. state false false r entries) (append_assoc current (c ∷ []) s)
scan_entry true false (c ∷ s) current entries h = ground (
  arith,
  scan_entry true true s (current ++ c ∷ []) entries,
  scan_entry false false s (current ++ c ∷ []) entries,
  scan_entry true false s (current ++ c ∷ []) entries,
  append_assoc current (c ∷ []) s,
)
scan_entry false x (c ∷ s) current entries h = ground (
  arith,
  scan_entry true false s (current ++ c ∷ []) entries,
  scan_entry false false s (current ++ c ∷ []) entries,
  append_assoc current (c ∷ []) s,
)

scan-append : (st : Scan) (s t : Bytes) → scan st (s ++ t) ≡ scan (scan st s) t
unfolding scan
scan-append st [] t = refl
scan-append st (c ∷ s) t = scan-append (scan_byte st c) s t

-- A header of entries, at least one, with commas between them.
abbrev pub join : Bytes → List Bytes → Bytes
join e [] = e
join e (f ∷ fs) = e ++ b',' ∷ join f fs

-- The comma behind an entry ends it.
scan-comma :
    (e rest : Bytes) (entries : List Bytes)
    → IsEntry e
    → scan (state false false [] entries) (e ++ b',' ∷ rest)
      ≡ scan (state false false [] (entries ++ trim_space e ∷ [])) rest
unfolding scan scan_byte
scan-comma e rest entries h =
    scan-append (state false false [] entries) e (b',' ∷ rest)
    ∙ ap (λ st. scan st (b',' ∷ rest)) (scan_entry false false e [] entries h)

abbrev ending : Scan → List Bytes
ending last = last.entries ++ trim_space last.current ∷ []

scan-join :
    (e : Bytes) (es entries : List Bytes)
    → IsEntry e
    → All IsEntry es
    → (scan (state false false [] entries) (join e es)).in_quotes ≡ false
scan-join e [] entries h hs = ap (λ st. st.in_quotes) (scan_entry false false e [] entries h)
scan-join e (f ∷ fs) entries h (hf, hs) =
    ap (λ st. st.in_quotes) (scan-comma e (join f fs) entries h)
    ∙ scan-join f fs (entries ++ trim_space e ∷ []) hf hs

ending-scan-join :
    (e : Bytes) (es entries : List Bytes)
    → IsEntry e
    → All IsEntry es
    → ending (scan (state false false [] entries) (join e es)) ≡ entries ++ map trim_space (e ∷ es)
ending-scan-join e [] entries h hs = ap ending (scan_entry false false e [] entries h)
ending-scan-join e (f ∷ fs) entries h (hf, hs) =
    ap ending (scan-comma e (join f fs) entries h)
    ∙ ending-scan-join f fs (entries ++ trim_space e ∷ []) hf hs
    ∙ append_assoc entries (trim_space e ∷ []) (map trim_space (f ∷ fs))

-- A header of entries with commas between them is split into these entries, trimmed, where every
-- entry closes its quoted strings and has no comma outside them.
pub split_forwarded-join :
    (e : Bytes) (es : List Bytes)
    → IsEntry e
    → All IsEntry es
    → split_forwarded (join e es) ≡ some (map trim_space (e ∷ es))
unfolding split_forwarded
split_forwarded-join e es h hs =
    let closed = scan-join e es [] h hs in
    let entries = ending-scan-join e es [] h hs in ground (arith, closed, entries)
