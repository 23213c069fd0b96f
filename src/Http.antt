-- ===== src/Http.antt =====
-- Requests and responses of net/http, as far as the handlers and the middleware use them.
use jsm.Number.{ℤ}
use jsm.Metrics.{Result, ok, err, sentinel, body_too_large, max_bytes}
use jsm.Domain.{User, Application, ApplicationPage}
use jsm.Common.{
  ℕ, ◌+◌, ◌-◌, ◌^◌, String, Bool, true, not, ◌&&◌, ◌||◌, Option, none, some, List, [], ◌∷◌, ◌++◌,
  ltb, leb, ◌==◌, if◌then◌else◌, length, take, all, any, Bytes, text, same,
}

-- A request as the server hands it over: header names are canonical, repeated headers stay apart.
pub record Request : Type 0 where
  pub method : Bytes
  pub path : Bytes
  pub remote_addr : Bytes
  pub headers : List (Bytes × Bytes)
  pub cookies : List (Bytes × Bytes)
  pub body : Bytes
  -- The user that SessionRequired stores on the request's context.
  pub user_id : Option Bytes

abbrev is_upper : ℕ → Bool
is_upper c = leb b'A' c && leb c b'Z'

abbrev is_lower : ℕ → Bool
is_lower c = leb b'a' c && leb c b'z'

-- A byte that may stand in a header's name.
abbrev is_token_byte : ℕ → Bool
is_token_byte c =
    is_upper c
    || is_lower c
    || leb b'0' c && leb c b'9'
    || any (λ t. t == c) (text "!#$%&'*+-.^_`|~")

canonical_from : Bool → Bytes → Bytes
canonical_from upper [] = []
canonical_from upper (c ∷ s) =
    (if upper && is_lower c then c - 32 else if not upper && is_upper c then c + 32 else c)
    ∷ canonical_from (c == b'-') s

-- http.CanonicalHeaderKey
unfoldable pub canonical_header_key : Bytes → Bytes
unfolding canonical_from
canonical_header_key s = if all is_token_byte s then canonical_from true s else s

values_from : List (Bytes × Bytes) → Bytes → List Bytes
values_from [] name = []
values_from ((k, v) ∷ hs) name =
    let rest = values_from hs name in if same k name then v ∷ rest else rest

-- Header.Values
unfoldable pub header_values : Request → Bytes → List Bytes
unfolding values_from canonical_header_key
header_values r name = values_from r.headers (canonical_header_key name)

abbrev first_or_empty : List Bytes → Bytes
first_or_empty [] = []
first_or_empty (v ∷ vs) = v

-- Header.Get
unfoldable pub header_get : Request → Bytes → Bytes
unfolding header_values
header_get r name = first_or_empty (header_values r name)

find_cookie : List (Bytes × Bytes) → Bytes → Option Bytes
find_cookie [] name = none
find_cookie ((k, v) ∷ cs) name = if same k name then some v else find_cookie cs name

-- Request.Cookie: the first cookie of the name.
unfoldable pub cookie : Request → Bytes → Option Bytes
unfolding find_cookie
cookie r name = find_cookie r.cookies name

pub record Cookie : Type 0 where
  pub name : Bytes
  pub value : Bytes
  pub path : Bytes
  pub domain : Bytes
  pub max_age : ℤ
  pub http_only : Bool
  pub secure : Bool
  pub same_site_lax : Bool

-- What the handlers encode as JSON; a user's body leaves out the hash (domain.User, `json:"-"`).
pub data Body : Type 0 where
  no_body status_ok : Body
  error_body : String → Body
  user_body : User → Body
  application_body : Application → Body
  page_body : ApplicationPage → Body

-- `retry_after` is the header of that name.
pub record Response : Type 0 where
  pub status : ℕ
  pub set_cookies : List Cookie
  pub retry_after : Option Bytes
  pub body : Body

-- jsmHttp.WriteJSONError
unfoldable pub write_json_error : String → ℕ → Response
write_json_error message status = record {
  status = status;
  set_cookies = [];
  retry_after = none;
  body = error_body message;
}

-- jsmHttp.WriteJSON
unfoldable pub write_json : Body → ℕ → Response
write_json body status = record {
  status = status;
  set_cookies = [];
  retry_after = none;
  body = body;
}

-- http.SetCookie before the rest of the answer is written.
abbrev pub with_cookies : List Cookie → Response → Response
with_cookies cookies r = record r { set_cookies = cookies ++ r.set_cookies }

-- jsmHttp.MaxBodyBytes
abbrev pub max_body_bytes : ℕ
max_body_bytes = 2 ^ 20

-- jsmHttp.LimitBody: reading a longer body fails.
unfoldable pub limit_body : Bytes → Result Bytes
limit_body body = if ltb max_body_bytes (length body) then err max_bytes else ok body

-- jsmHttp.Decode, over what reading the body gives.
unfoldable pub decode {ℓ} : {A : Type ℓ} → (Bytes → Result A) → Result Bytes → Result A
decode unmarshal (err e) = err e
decode unmarshal (ok body) =
    let contents = take (max_body_bytes + 1) body in
    if ltb max_body_bytes (length contents)
    then err (sentinel body_too_large)
    else unmarshal contents
