-- ===== src/Examples/Limits.antt =====
-- The rate limiter's theorems, and those on texts and numbers, at concrete inputs.
use jsm.Common.{
  ◌≤◌, min, ◌≡◌, refl, ◌≢◌, ◌⊎◌, true, false, Option, none, some, List, [], ◌∷◌, arith, length,
  take, Bytes, text, cut, split,
}
use jsm.RateLimit.{Key, Policy, allow, key_ip}
use jsm.RateLimit.Verdict.{allow-judge, judge, run_counters, charges}
use jsm.RateLimit.Memory.{Buckets, find, memory_store}
use jsm.RateLimit.Memory.View.{live}
use jsm.RateLimit.Memory.Quota.{Call, grants, calls_on, grants-eq-min}
use jsm.RateLimit.ClientIp.{
  client_ip, peer_addr, forwarded_chain, forwarded, is_trusted, parse_addr, x_forwarded_for,
  parse_all, forwarded_for,
}
use jsm.RateLimit.ClientIp.Walk.{client_ip_untrusted_hop, client_ip-forwarded_wins}
use jsm.Http.{Request, header_values}
use jsm.Metrics.{ok}
use jsm.Text.{trim_space}
use jsm.RateLimit.ClientIp.Forwarded.{split_forwarded}
use jsm.Sanitise.{clean, clean_list, Url, validate_job_link}
use jsm.Sanitise.Bounds.{clean_safe, IsInert}
use jsm.Sanitise.Lists.{clean_list-eq-take, candidates}
use jsm.Sanitise.Links.{validate_job_link_sound}
use jsm.Examples.Samples.{names, resolver, request}

abbrev pub policy : Policy
policy = (text "a:ip", record { limit = 1; window = 100 } ∷ []) ∷ []

abbrev pub key : Key
key = record { scope = text "a"; kind = key_ip; value = text "v" }

abbrev pub one_bucket : Buckets
one_bucket = (text "x", record { count = 4; expires_at = 50 }) ∷ []

allow-judge_example :
    allow (λ s. s) 7 policy (memory_store 7) (key ∷ key ∷ []) one_bucket
    ≡ judge
        (λ s. s)
        7
        policy
        (memory_store 7)
        (record { allowed = true; retry_after = 0 })
        (run_counters
          (λ s. s)
          7
          policy
          (memory_store 7)
          (charges (λ s. s) 7 policy (memory_store 7) (key ∷ key ∷ []))
          one_bucket)
allow-judge_example = allow-judge (λ s. s) 7 policy (memory_store 7) (key ∷ key ∷ []) one_bucket

abbrev calls : List Call
calls =
    record { at = 100; name = text "x"; window = 100 }
    ∷ record { at = 110; name = text "y"; window = 100 }
    ∷ record { at = 150; name = text "x"; window = 100 }
    ∷ record { at = 199; name = text "x"; window = 100 }
    ∷ []

nothing_lives : live 100 (text "x") one_bucket ≡ none
unfolding find
nothing_lives = refl

grants-eq-min_example : grants (text "x") 2 calls one_bucket ≡ min 2 (calls_on (text "x") calls)
grants-eq-min_example =
    grants-eq-min (text "x") 100 100 2 calls one_bucket (unfold find in refl, tt) nothing_lives
      (omega arith, (omega arith, (omega arith, (omega arith, tt))))
      (
        (λ e. (omega arith, omega arith, refl)),
        (
          (λ e. absurd (ground (arith, e))),
          ((λ e. (omega arith, omega arith, refl)), ((λ e. (omega arith, omega arith, refl)), tt)),
        ),
      )

-- A request of the proxy `p` with both headers.
abbrev relayed : Request
relayed =
    request (text "GET") (text "/") (text "p")
      ((text "X-Forwarded-For", text "u, q") ∷ (text "Forwarded", text "for=v") ∷ []) []

abbrev relayed_once : Request
relayed_once =
    request (text "GET") (text "/") (text "p") ((text "X-Forwarded-For", text "t, u, q") ∷ []) []

abbrev direct : Request
direct = request (text "GET") (text "/") (text "w") ((text "X-Forwarded-For", text "u") ∷ []) []

w_untrusted : is_trusted names resolver.trusted (text "w") ≡ false
unfolding is_trusted
w_untrusted = refl

u_untrusted : is_trusted names resolver.trusted (text "u") ≡ false
unfolding is_trusted
u_untrusted = refl

v_untrusted : is_trusted names resolver.trusted (text "v") ≡ false
unfolding is_trusted
v_untrusted = refl

p_trusted : is_trusted names resolver.trusted (text "p") ≡ true
unfolding is_trusted
p_trusted = refl

q_trusted : is_trusted names resolver.trusted (text "q") ≡ true
unfolding is_trusted
q_trusted = refl

direct_peer : peer_addr names direct ≡ some (text "w")
unfolding peer_addr
direct_peer = unfold parse_addr trim_space in refl

relayed_peer : peer_addr names relayed_once ≡ some (text "p")
unfolding peer_addr
relayed_peer = unfold parse_addr trim_space in refl

relayed_chain : forwarded_chain names relayed_once ≡ text "t" ∷ text "u" ∷ text "q" ∷ []
unfolding forwarded_chain header_values split
relayed_chain =
    unfold forwarded x_forwarded_for parse_all parse_addr split_forwarded trim_space in refl

client_ip_untrusted_hop_example : client_ip names resolver relayed_once ≡ some (text "u")
client_ip_untrusted_hop_example =
    client_ip_untrusted_hop names resolver relayed_once (text "p") relayed_peer p_trusted refl
      (text "t" ∷ []) (text "u") (text "q" ∷ []) relayed_chain u_untrusted (q_trusted, tt)

names_p : peer_addr names relayed ≡ some (text "p")
unfolding peer_addr
names_p = unfold parse_addr trim_space in refl

names_v : forwarded names (header_values relayed (text "Forwarded")) ≡ text "v" ∷ []
unfolding forwarded header_values forwarded_for split cut
names_v = unfold split_forwarded parse_addr trim_space in refl

client_ip-forwarded_wins_example : client_ip names resolver relayed ≡ some (text "v")
client_ip-forwarded_wins_example =
    client_ip-forwarded_wins names resolver relayed (text "p") names_p p_trusted refl [] (text "v")
      [] names_v v_untrusted tt

clean_safe_example :
    (length (clean (text " <b>'hi'  ") 12) ≤ 12) × IsInert (clean (text " <b>'hi'  ") 12)
clean_safe_example = clean_safe (text " <b>'hi'  ") 12

abbrev tags_sent : List Bytes
tags_sent = text "a" ∷ text " " ∷ text " a" ∷ text "b" ∷ text "c" ∷ []

clean_list-eq-take_example : clean_list tags_sent 9 2 ≡ take 2 (candidates 9 tags_sent)
clean_list-eq-take_example = clean_list-eq-take tags_sent 9 2 (omega arith)

abbrev web : Bytes → Option Url
web s = some (record { scheme = text "https"; host = s })

web_link : validate_job_link web (text " x ") ≡ ok (text "x")
unfolding validate_job_link
web_link = unfold trim_space in refl

validate_job_link_sound_example :
    (text "x" ≡ trim_space (text " x "))
    × ((text "x" ≡ [])
        ⊎ ((url : Url) × (web (text "x") ≡ some url)
            × (length (text "x") ≤ 2000)
            × (url.host ≢ [])
            × ((url.scheme ≡ text "http") ⊎ (url.scheme ≡ text "https"))))
validate_job_link_sound_example = validate_job_link_sound web (text " x ") (text "x") web_link
