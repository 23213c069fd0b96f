-- ===== src/Accounts/Email.antt =====
-- NormalizeEmail and ValidateEmail of backend/internal/service/auth.go. mail.ParseAddress and the
-- Unicode case tables are parameters; the pattern of a domain is written out.
use jsm.Common.{
  ℕ, Bool, false, not, ◌&&◌, ◌||◌, Option, none, some, [], ◌∷◌, reverse, ltb, leb, ◌==◌,
  if◌then◌else◌, length, all, any, Bytes, same, cut, split,
}
use jsm.Metrics.{Result, ok, err, invalid_email}
use jsm.Text.{trim_space, to_lower}
use jsm.Text.Utf8.{runes}

unfoldable pub normalize_email : (Bytes → Bytes) → Bytes → Bytes
normalize_email unicode_lower input = to_lower unicode_lower (trim_space input)

-- net/mail.ParseAddress: the display name and the address.
pub record Mail : Type 0 where
  pub parse_address : Bytes → Option (Bytes × Bytes)

abbrev is_alnum : ℕ → Bool
is_alnum c = leb b'a' c && leb c b'z' || leb b'A' c && leb c b'Z' || leb b'0' c && leb c b'9'

abbrev starts_alnum : Bytes → Bool
starts_alnum [] = false
starts_alnum (c ∷ s) = is_alnum c

-- `[a-zA-Z0-9](?:[a-zA-Z0-9-]{0,61}[a-zA-Z0-9])?`
abbrev pub is_label : Bytes → Bool
is_label l =
    starts_alnum l
    && starts_alnum (reverse l)
    && all (λ c. is_alnum c || c == b'-') l
    && leb (length l) 63

-- emailDomainPattern: labels joined by dots, two at least.
unfoldable pub is_email_domain : Bytes → Bool
is_email_domain s = let labels = split b'.' s in leb 2 (length labels) && all is_label labels

-- The rune that ValidateEmail refuses.
abbrev pub is_refused : ℕ → Bool
is_refused c = leb c b' ' || leb 127 c || c == b'"'

parsed_as : Option (Bytes × Bytes) → Bytes → Bool
parsed_as none email = false
parsed_as (some (name, address)) email = same name [] && same address email

parts_ok : Option (Bytes × Bytes) → Bool
parts_ok none = false
parts_ok (some (before, domain_name)) = leb (length before) 64 && is_email_domain domain_name

unfoldable pub validate_email : Mail → Bytes → Result Bytes
unfolding parsed_as parts_ok
validate_email mail input =
    let email = trim_space input in
    if same email [] || ltb 254 (length email)
    then err invalid_email
    else if any is_refused (runes email)
    then err invalid_email
    else if not (parsed_as (mail.parse_address email) email)
    then err invalid_email
    else if not (parts_ok (cut b'@' email))
    then err invalid_email
    else ok email
