-- ===== src/RateLimit.antt =====
-- backend/internal/rate-limiter/limiter.go: keys, rules, the policy, and the limiter over an
-- abstract counter store. Durations and instants are nanoseconds, an instant since Go's zero time.
-- One call of Allow or Reset reads the clock at one instant, `now`.
pub mod Verdict
pub mod Bucket
pub mod Memory
pub mod ClientIp
pub mod Redis
pub mod Guard
use jsm.Common.{
  ℕ, ◌+◌, ◌-◌, ◌*◌, ◌/◌, ◌%◌, Bool, true, false, Option, none, some, List, [], ◌∷◌, ◌++◌, map, ltb,
  ◌==◌, if◌then◌else◌, take, Bytes, text, same,
}
use jsm.Number.{itoa, print_nat, sub_ℕ}
use jsm.Metrics.{AppError, Result, ok, err}

pub record Key : Type 0 where
  pub scope : Bytes
  pub kind : Bytes
  pub value : Bytes

pub record Rule : Type 0 where
  pub limit : ℕ
  pub window : ℕ

pub record Decision : Type 0 where
  pub allowed : Bool
  pub retry_after : ℕ

abbrev pub scope_login : Bytes
scope_login = text "login"

abbrev pub scope_signup : Bytes
scope_signup = text "signup"

abbrev pub scope_reset_password : Bytes
scope_reset_password = text "reset_password"

abbrev pub key_ip : Bytes
key_ip = text "ip"

abbrev pub key_email : Bytes
key_email = text "email"

abbrev pub key_user : Bytes
key_user = text "user"

-- A map from policy keys to rules; a missing entry reads as no rules.
abbrev pub Policy : Type 0
Policy = List (Bytes × List Rule)

abbrev pub policy_key : Bytes → Bytes → Bytes
policy_key scope kind = scope ++ b':' ∷ kind

unfoldable pub rules_of : Policy → Bytes → List Rule
rules_of [] name = []
rules_of ((k, rules) ∷ p) name = if same k name then rules else rules_of p name

abbrev pub second : ℕ
second = 1_000_000_000

abbrev pub minute : ℕ
minute = 60 * second

abbrev pub hour : ℕ
hour = 60 * minute

abbrev rule : ℕ → ℕ → Rule
rule limit window = record { limit = limit; window = window }

unfoldable pub default_policy : Policy
default_policy =
    (policy_key scope_login key_ip, rule 10 minute ∷ rule 60 hour ∷ [])
    ∷ (policy_key scope_login key_email, rule 5 (5 * minute) ∷ rule 20 hour ∷ [])
    ∷ (policy_key scope_signup key_ip, rule 3 (10 * minute) ∷ rule 10 (24 * hour) ∷ [])
    ∷ (policy_key scope_reset_password key_user, rule 5 (15 * minute) ∷ [])
    ∷ []

-- An Option of newLimiter, as far as the policy goes; WithClock has no part in it.
unfoldable pub with_policy : Policy → Policy → Policy
with_policy p l = p

unfoldable pub new_limiter : List (Policy → Policy) → Policy
new_limiter opts = apply_options default_policy opts
  where
    apply_options : Policy → List (Policy → Policy) → Policy
    apply_options l [] = l
    apply_options l (opt ∷ opts) = apply_options (opt l) opts

-- The `store` interface: Incr returns the count and the time to live.
pub record Store : Type 1 where
  pub State : Type 0
  pub incr : State → Bytes → ℕ → Result (ℕ × ℕ) × State
  pub del : State → List Bytes → Option AppError × State

-- time.Time.Truncate; a duration of 0 leaves the instant.
abbrev pub truncate : ℕ → ℕ → ℕ
truncate t d = if d == 0 then t else t - t % d

-- The seconds from Go's zero time, 1 January of year 1, to the Unix epoch.
abbrev pub epoch : ℕ
epoch = 62_135_596_800

abbrev hex_digit : ℕ → ℕ
hex_digit n = if ltb n 10 then b'0' + n else b'a' + (n - 10)

-- hex.EncodeToString
unfoldable pub hex : Bytes → Bytes
hex [] = []
hex (b ∷ s) = hex_digit (b / 16) ∷ hex_digit (b % 16) ∷ hex s

module _ (sum256 : Bytes → Bytes) (now : ℕ) where
  unfoldable pub bucket : Key → Rule → Bytes
  bucket k r =
      text "rl:"
      ++ k.scope
      ++ b':'
        ∷ (k.kind
            ++ b':'
              ∷ (hex (take 16 (sum256 k.value))
                  ++ b':'
                    ∷ (print_nat (r.window / second)
                        ++ b':' ∷ itoa (sub_ℕ (truncate now r.window / second) epoch))))

  module _ (policy : Policy) (store : Store) where
    open store use {State, incr, del}

    abbrev pub Answer : Type 0
    Answer = Decision × Option AppError × State

    abbrev trip : Rule → ℕ → ℕ → Decision → Decision
    trip r count ttl d =
        if ltb r.limit count
        then record {
          allowed = false;
          retry_after = if ltb d.retry_after ttl then ttl else d.retry_after;
        }
        else d

    -- The inner loop, over the rules of one key; an error returns at once.
    unfoldable pub charge_rules : Key → List Rule → Decision → State → Answer
    charge_rules k [] d st = (d, none, st)
    charge_rules k (r ∷ rs) d st =
        let (result, st') = incr st (bucket k r) r.window in
        elim result [
          | err e ↦ (record { allowed = false; retry_after = r.window }, some e, st')
          | ok (count, ttl) ↦ charge_rules k rs (trip r count ttl d) st'
        ]

    -- The outer loop, over the keys.
    unfoldable pub charge_keys : List Key → Decision → State → Answer
    charge_keys [] d st = (d, none, st)
    charge_keys (k ∷ ks) d st =
        let (d', failure, st') =
          charge_rules k (rules_of policy (policy_key k.scope k.kind)) d st in
        elim failure [ some e ↦ (d', some e, st') | none ↦ charge_keys ks d' st' ]

    unfoldable pub allow : List Key → State → Answer
    unfolding charge_keys charge_rules
    allow keys st = charge_keys keys (record { allowed = true; retry_after = 0 }) st

    bucket_names : List Key → List Bytes
    bucket_names [] = []
    bucket_names (k ∷ ks) =
        map (bucket k) (rules_of policy (policy_key k.scope k.kind)) ++ bucket_names ks

    del_names : List Bytes → State → Option AppError × State
    del_names [] st = (none, st)
    del_names (n ∷ names) st = del st (n ∷ names)

    unfoldable pub reset : List Key → State → Option AppError × State
    unfolding bucket_names del_names
    reset keys st = del_names (bucket_names keys) st
