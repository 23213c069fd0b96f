-- ===== src/Handlers/Auth/Guessing.antt =====
-- How many guesses of a password the login handler checks, with the counters in memory and the
-- limits of DefaultPolicy.
use jsm.Common.{ℕ, ◌+◌, ◌≤◌, ◌<◌, ◌≡◌, Bool, List, [], ◌∷◌, ◌==◌, if◌then◌else◌, Bytes}
use jsm.Metrics.{ok}
use jsm.Domain.{LogInRequest}
use jsm.Http.{Request, Response, limit_body, decode}
use jsm.RateLimit.{
  Key, Rule, rules_of, policy_key, truncate, allow, default_policy, scope_login, key_email,
}
use jsm.RateLimit.ClientIp.{NetIp, Resolver}
use jsm.RateLimit.Guard.{Guard, new_guard, client_key, allow_request}
use jsm.RateLimit.Memory.{Buckets, memory_store}
use jsm.RateLimit.Memory.Attempts.{Attempt, Among}
use jsm.Handlers.Auth.{Authenticator, AuthWire, authenticate_handler}

module _ (net : NetIp) (sum256 : Bytes → Bytes) (resolver : Resolver net) {T : Type 0}
    (w : AuthWire) (service : Authenticator T) where
  -- The counters, and what the service keeps.
  pub record State : Type 0 where
    pub counters : Buckets
    pub kept : T

  abbrev counted : {A : Type 0} → T → A × Buckets → A × State
  counted kept (answer, counters) = (answer, record { counters = counters; kept = kept })

  abbrev served : {A : Type 0} → Buckets → A × T → A × State
  served counters (answer, kept) = (answer, record { counters = counters; kept = kept })

  abbrev guard_at : ℕ → Guard State
  guard_at t =
      let g = new_guard net sum256 default_policy (memory_store t) resolver t in
      record {
        allow_request =
            λ r scope keys st. counted st.kept (g.allow_request r scope keys st.counters);
        reset_request =
            λ r scope keys st. record st { counters = g.reset_request r scope keys st.counters };
      }

  abbrev service_beside : Authenticator State
  service_beside = record {
    authenticate =
        λ email password st. served st.counters (service.authenticate email password st.kept);
    change_password = λ user_id session_id req st.
        served st.counters (service.change_password user_id session_id req st.kept);
    create_user = λ req st. served st.counters (service.create_user req st.kept);
    logout = λ session_id st. served st.counters (service.logout session_id st.kept);
  }

  abbrev pub log_in_at : ℕ → Request → State → Response × State
  log_in_at t r st = authenticate_handler w service_beside (guard_at t) r st

  -- The requests that are not turned away with 429, up to the first that logs in.
  unfoldable pub checked : List (ℕ × Request) → State → ℕ
  checked [] st = 0
  checked ((t, r) ∷ more) st =
      let (answer, st') = log_in_at t r st in
      let rest = checked more st' in
      if answer.status == 429 then rest else if answer.status == 200 then 1 else 1 + rest

  abbrev attempt : Bytes → ℕ × Request → Attempt
  attempt account (t, r) = record {
    at = t;
    keys =
        client_key net sum256 default_policy (memory_store t) resolver t r scope_login
        ∷ record { scope = scope_login; kind = key_email; value = account }
        ∷ [];
  }

  -- The request is a login on the account.
  abbrev pub IsLogInOn : Bytes → Request → Type 0
  IsLogInOn account r =
      (req : LogInRequest) × (decode w.unmarshal_log_in (limit_body r.body) ≡ ok req)
      × (w.normalize_email req.email ≡ account)

  module _ (account : Bytes) where
    abbrev ruling : ℕ → Request → Buckets → Bool
    ruling t r bs =
        (allow sum256 t default_policy (memory_store t) (attempt account (t, r)).keys bs).0.allowed

    abbrev counters_after : ℕ → Request → Buckets → Buckets
    counters_after t r bs =
        (allow sum256 t default_policy (memory_store t) (attempt account (t, r)).keys bs).2

    abbrev pub account_key : Key
    account_key = record { scope = scope_login; kind = key_email; value = account }

    -- The clock does not run backwards, from `t` on.
    abbrev pub InOrder : ℕ → List (ℕ × Request) → Type 0
    InOrder t [] = Unit
    InOrder t ((u, r) ∷ more) = (t ≤ u) × InOrder u more

    module _ (rule : Rule) (start : ℕ) (aligned : truncate start rule.window ≡ start)
        (positive : 0 < rule.window)
        (ruled : Among rule (rules_of default_policy (policy_key scope_login key_email))) where
      -- A login on the account in the window.
      abbrev pub IsGuess : ℕ × Request → Type 0
      IsGuess (t, r) = (start ≤ t) × (t < start + rule.window) × IsLogInOn account r
