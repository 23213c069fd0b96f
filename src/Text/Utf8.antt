-- ===== src/Text/Utf8.antt =====
-- unicode/utf8: the runes that `range` and RuneCountInString see in a string.
use jsm.Common.{
  ℕ, zero, suc, ◌+◌, ◌-◌, ◌*◌, ◌%◌, ◌≤◌, ◌<◌, ◌≡◌, refl, Bool, ◌&&◌, List, [], ◌∷◌, arith, ltb, leb,
  ◌==◌, if◌then◌else◌, length, drop, All, Bytes,
}

abbrev cont : ℕ → Bool
cont c = leb 0x80 c && leb c 0xbf

abbrev pub rune_error : ℕ
rune_error = 0xfffd

abbrev two : ℕ → Bytes → ℕ × ℕ
two a [] = (rune_error, 1)
two a (b ∷ s) = if cont b then (a % 32 * 64 + b % 64, 2) else (rune_error, 1)

abbrev three : ℕ → Bytes → ℕ × ℕ
three a [] = (rune_error, 1)
three a (b ∷ []) = (rune_error, 1)
three a (b ∷ c ∷ s) =
    if leb (if a == 0xe0 then 0xa0 else 0x80) b
      && leb b (if a == 0xed then 0x9f else 0xbf)
      && cont c
    then (a % 16 * 4096 + b % 64 * 64 + c % 64, 3)
    else (rune_error, 1)

abbrev four : ℕ → Bytes → ℕ × ℕ
four a [] = (rune_error, 1)
four a (b ∷ []) = (rune_error, 1)
four a (b ∷ c ∷ []) = (rune_error, 1)
four a (b ∷ c ∷ d ∷ s) =
    if leb (if a == 0xf0 then 0x90 else 0x80) b
      && leb b (if a == 0xf4 then 0x8f else 0xbf)
      && cont c
      && cont d
    then (a % 8 * 262_144 + b % 64 * 4096 + c % 64 * 64 + d % 64, 4)
    else (rune_error, 1)

-- The first rune and its width; a byte that starts no well-formed rune is U+FFFD of width 1.
unfoldable pub decode_rune : ℕ → Bytes → ℕ × ℕ
decode_rune a s =
    if ltb a 0x80
    then (a, 1)
    else if leb 0xc2 a && leb a 0xdf
    then two a s
    else if leb 0xe0 a && leb a 0xef
    then three a s
    else if leb 0xf0 a && leb a 0xf4
    then four a s
    else (rune_error, 1)

runes_from : ℕ → Bytes → List ℕ
unfolding decode_rune
runes_from zero s = []
runes_from (suc fuel) [] = []
runes_from (suc fuel) (a ∷ s) =
    let (rune, width) = decode_rune a s in rune ∷ runes_from fuel (drop (width - 1) s)

-- A rune takes a byte at least, so the length is enough fuel.
unfoldable pub runes : Bytes → List ℕ
unfolding runes_from
runes s = runes_from (length s) s

runes_from_ascii :
    (fuel : ℕ) (s : Bytes) → length s ≤ fuel → All (λ c. c < 0x80) s → runes_from fuel s ≡ s
unfolding runes_from
runes_from_ascii zero [] h a = refl
runes_from_ascii zero (c ∷ s) h a = absurd (omega arith)
runes_from_ascii (suc fuel) [] h a = refl
runes_from_ascii (suc fuel) (c ∷ s) h (p, a) =
    ground (arith, runes_from_ascii fuel s (omega arith) a)

-- The runes of an ASCII string are its bytes.
pub runes_ascii : (s : Bytes) → All (λ c. c < 0x80) s → runes s ≡ s
unfolding runes
runes_ascii s a = runes_from_ascii (length s) s (omega arith) a
