-- ===== src/Examples/Counting.antt =====
-- The theorems on buckets and their counts, and on the entries of a header, at concrete inputs.
use jsm.Common.{
  ◌+◌, ◌-◌, ◌*◌, ◌≤◌, ◌≡◌, refl, ◌↔◌, inl, inr, Bool, Option, none, some, List, [], ◌∷◌, map, arith,
  if◌then◌else◌, Bool-cases, any, Bytes, text, same, Without,
}
use jsm.RateLimit.{
  Policy, Decision, allow, reset, scope_login, key_ip, default_policy, Key, Rule, rules_of,
  policy_key, bucket, key_email, second,
}
use jsm.RateLimit.Bucket.{SameBucket, bucket_iff}
use jsm.RateLimit.Memory.{Buckets, find, incr, memory_store}
use jsm.RateLimit.{hex}
use jsm.Number.{print_nat, itoa, ℤ, pos, negsuc}
use jsm.Metrics.{AppError, Result, ok}
use jsm.RateLimit.Redis
use jsm.RateLimit.Redis.{read_replies, redis_store}
use jsm.RateLimit.Redis.Script.{Commands, incr_script, expire_new, connection}
use jsm.RateLimit.Redis.Counters.{Counter, raised, set_expiry, IsCommands}
use jsm.RateLimit.Redis.Agreement.{Agree}
use jsm.RateLimit.Redis.Resets.{charged, reset-Agree}
use jsm.RateLimit.Redis.Decisions.{allow-Agree}
use jsm.RateLimit.Memory.View.{live, live-incr_wait}
use jsm.RateLimit.Memory.Attempts.{Attempt, Among, allowed_among}
use jsm.RateLimit.Memory.Attempts.Bound.{IsPlain, allowed_among-bound}
use jsm.Text.{trim_space}
use jsm.RateLimit.ClientIp.Forwarded.{split_forwarded}
use jsm.RateLimit.ClientIp.Forwarded.Join.{join, split_forwarded-join}
use jsm.Examples.Limits.{key, one_bucket}

live-incr_wait_example :
    live
      (20 + (incr 20 one_bucket (text "x") 100).0.1)
      (text "x")
      (incr 20 one_bucket (text "x") 100).1
    ≡ none
live-incr_wait_example = live-incr_wait 20 one_bucket (text "x") 100 (unfold find in refl, tt)

abbrev mail_key : Key
mail_key = record { scope = text "a"; kind = key_email; value = text "v" }

abbrev minute : Rule
minute = record { limit = 5; window = 60 * second }

mail_kind : Without b':' key_email
mail_kind = ground arith

bucket_iff_example :
    (bucket (λ s. s) 70000000000 key minute ≡ bucket (λ s. s) 119000000000 mail_key minute)
    ↔ SameBucket (λ s. s) 70000000000 119000000000 key mail_key minute minute
bucket_iff_example =
    bucket_iff (λ s. s) 70000000000 119000000000 key mail_key minute minute
      ((λ e. absurd (ground (arith, e))), tt) ((λ e. absurd (ground (arith, e))), tt)
      ((λ e. absurd (ground (arith, e))), ((λ e. absurd (ground (arith, e))), tt)) mail_kind

abbrev Keys : Type 0
Keys = Bytes → Option Counter

abbrev left_of : Option Counter → Result ℤ
left_of none = ok (negsuc 1)
left_of (some k) = elim k.expires_at [ none ↦ ok (negsuc 0) | some t ↦ ok (pos (t - 8)) ]

-- Redis at 8 ms, its keys a function.
abbrev keys_at_8 : Commands
keys_at_8 = record {
  State = Keys;
  incr = λ st key.
      (ok (pos (raised (st key)).count), λ j. if same key j then some (raised (st key)) else st j);
  pexpire =
      λ st key millis. (none, λ j. if same key j then set_expiry (8 + millis) (st j) else st j);
  pttl = λ st key. left_of (st key);
  del = λ st keys. (none, λ j. if any (λ k. same k j) keys then none else st j);
}

keys_at_8-IsCommands : IsCommands keys_at_8 8 (λ st. st)
keys_at_8-IsCommands = record {
  incr_law = λ st key e. (cc, λ j. refl);
  pexpire_law = λ st key millis h e j. refl;
  pttl_law = λ st key e f g. ground (arith, e, f, g);
  del_law = λ st keys e j. refl;
}

-- One key that has been counted before.
abbrev counted_once : Keys
counted_once j =
    if same (text "v") j then some (record { count = 1; expires_at = some 9 }) else none

abbrev counted_once_here : Buckets
counted_once_here = (text "v", record { count = 1; expires_at = 9_000_000 }) ∷ []

they-Agree : Agree keys_at_8 8 (λ st. st) keys_at_8-IsCommands counted_once counted_once_here
unfolding find
they-Agree j = elim (Bool-cases (same (text "v") j)) [
  | inl e ↦ rw e (omega arith, refl, (9, omega arith, refl, refl))
  | inr e ↦ rw e tt
]

abbrev vs : Key
vs = record { scope = text "a"; kind = key_ip; value = text "v" }

abbrev in_ms : Policy
in_ms = (text "a:ip", record { limit = 1; window = 5_000_000 } ∷ []) ∷ []

abbrev in_redis : Decision × Option AppError × Keys
in_redis =
    allow (λ s. s) 8_000_000 in_ms (redis_store (connection keys_at_8)) (vs ∷ []) counted_once

abbrev in_memory : Decision × Option AppError × Buckets
in_memory = allow (λ s. s) 8_000_000 in_ms (memory_store 8_000_000) (vs ∷ []) counted_once_here

redis_answers : in_redis.1 ≡ none
unfolding allow Redis.incr incr_script rules_of bucket hex print_nat itoa
redis_answers = unfold expire_new read_replies in refl

allow-Agree_example :
    (in_redis.0 ≡ in_memory.0)
    × Agree keys_at_8 8 (λ st. st) keys_at_8-IsCommands in_redis.2 in_memory.2
allow-Agree_example =
    allow-Agree (λ s. s) in_ms keys_at_8 8 (λ st. st) keys_at_8-IsCommands (vs ∷ []) counted_once
      counted_once_here (unfold find in refl, tt) they-Agree
      (unfold rules_of in ((5, omega arith, refl), tt)) redis_answers

resets :
    (reset (λ s. s) 8_000_000 in_ms (redis_store (connection keys_at_8)) (vs ∷ []) counted_once).0
    ≡ none
unfolding reset Redis.del rules_of
resets = refl

abbrev after_reset : Option AppError × Keys
after_reset =
    reset (λ s. s) 8_000_000 in_ms (redis_store (connection keys_at_8)) (vs ∷ []) counted_once

abbrev after_reset_here : Option AppError × Buckets
after_reset_here =
    reset (λ s. s) 8_000_000 in_ms (memory_store 8_000_000) (vs ∷ []) counted_once_here

abbrev vs_charged : Bytes → Bool
vs_charged j = charged keys_at_8 8 (λ st. st) keys_at_8-IsCommands (λ s. s) in_ms (vs ∷ []) j

reset-Agree_example :
    (after_reset_here.0 ≡ none)
    × Agree keys_at_8 8 (λ st. st) keys_at_8-IsCommands after_reset.1 after_reset_here.1
    × ((j : Bytes)
        → (after_reset.1 j ≡ (if vs_charged j then none else counted_once j))
          × (live 8_000_000 j after_reset_here.1
              ≡ (if vs_charged j then none else live 8_000_000 j counted_once_here)))
reset-Agree_example =
    reset-Agree keys_at_8 8 (λ st. st) keys_at_8-IsCommands (λ s. s) in_ms (vs ∷ []) counted_once
      counted_once_here they-Agree resets

-- Two logins on one account, from two addresses.
abbrev account : Key
account = record { scope = scope_login; kind = key_email; value = text "v" }

abbrev address : Bytes → Key
address a = record { scope = scope_login; kind = key_ip; value = a }

abbrev five : Rule
five = record { limit = 5; window = 300_000_000_000 }

abbrev logins : List Attempt
logins =
    record { at = 300_000_000_000; keys = address (text "w") ∷ account ∷ [] }
    ∷ record { at = 301_000_000_000; keys = address (text "u") ∷ account ∷ [] }
    ∷ []

five_ruled : Among five (rules_of default_policy (policy_key account.scope account.kind))
unfolding default_policy rules_of
five_ruled = inl refl

account-IsPlain : IsPlain (λ s. s) default_policy account
unfolding default_policy rules_of
account-IsPlain = (ground arith, ground arith, ((300, refl), ((3600, refl), tt)))

address-IsPlain : (a : Bytes) → IsPlain (λ s. s) default_policy (address a)
unfolding default_policy rules_of
address-IsPlain a = (ground arith, ground arith, ((60, refl), ((3600, refl), tt)))

new_bucket : live 300_000_000_000 (bucket (λ s. s) 300_000_000_000 account five) one_bucket ≡ none
unfolding find bucket
new_bucket = refl

allowed_among-bound_example : allowed_among (λ s. s) default_policy logins one_bucket ≤ 5
allowed_among-bound_example =
    allowed_among-bound (λ s. s) default_policy account five 300_000_000_000 refl (omega arith)
      account-IsPlain five_ruled logins one_bucket (unfold find in refl, tt) new_bucket
      (omega arith, (omega arith, tt))
      (
        (
          omega arith,
          omega arith,
          inr (inl refl),
          (address-IsPlain (text "w"), (account-IsPlain, tt)),
        ),
        (
          (
            omega arith,
            omega arith,
            inr (inl refl),
            (address-IsPlain (text "u"), (account-IsPlain, tt)),
          ),
          tt,
        ),
      )

abbrev quoted : Bytes
quoted = text " for=\"a,b\""

split_forwarded-join_example :
    split_forwarded (join quoted (text "by=c" ∷ []))
    ≡ some (map trim_space (quoted ∷ text "by=c" ∷ []))
split_forwarded-join_example = split_forwarded-join quoted (text "by=c" ∷ []) refl (refl, tt)
