-- ===== src/Examples/Guesses.antt =====
-- The bound on guesses of a password, at concrete requests.
use jsm.Common.{ℕ, ◌+◌, List, [], ◌∷◌, text}
use jsm.Metrics.{ok, err, sentinel, incorrect_credentials, other}
use jsm.Http.{Request}
use jsm.RateLimit.{Rule}
use jsm.Handlers.Auth.{Authenticator, AuthWire}
use jsm.Handlers.Auth.Guessing.{State}
use jsm.Examples.Samples.{names, resolver, request}
use jsm.Examples.Limits.{one_bucket}

-- A body is the address that logs in; every password is wrong, and guesses are counted.
abbrev wire : AuthWire
wire = record {
  unmarshal_log_in = λ s. ok (record { email = s; password = [] });
  unmarshal_change_password = λ s. err (other "json");
  unmarshal_sign_up = λ s. err (other "json");
  session_id = λ r. [];
  normalize_email = λ s. s;
}

abbrev always_wrong : Authenticator ℕ
always_wrong = record {
  authenticate = λ email password n. (err (sentinel incorrect_credentials), n + 1);
  change_password = λ user_id session_id req n. (err (other "password"), n);
  create_user = λ req n. (err (other "user"), n);
  logout = λ session_id n. (err (other "session"), n);
}

abbrev guess : Request
guess = record (request (text "POST") (text "/login") (text "w") [] []) { body = text "v" }

abbrev guesses : List (ℕ × Request)
guesses = (300_000_000_000, guess) ∷ (301_000_000_000, guess) ∷ []

abbrev five : Rule
five = record { limit = 5; window = 300_000_000_000 }

abbrev before : State names (λ s. s) resolver wire always_wrong
before = record { counters = one_bucket; kept = 0 }
