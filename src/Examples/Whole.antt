-- ===== src/Examples/Whole.antt =====
-- The theorems on the wired server, and on the program around it, at concrete inputs.
use jsm.Common.{ℕ, ◌≡◌, ◌≢◌, ◌⊎◌, none, some, [], ◌∷◌, ◌++◌, arith, All, Bytes, text}
use jsm.Metrics.{other, err}
use jsm.Http.{cookie, Request, error_body}
use jsm.Session.{get_user_id_from_request}
use jsm.RateLimit.Memory.{memory_store}
use jsm.Server.{Parts, World, serve}
use jsm.Handlers.Shown.{Shows}
use jsm.Server.Disclosure.{IsForOwner, serve-Shows}
use jsm.Server.Root.{SignedInAs}
use jsm.Server.Tenancy.{Names}
use jsm.Config.{load}
use jsm.Run.{Outside, signalled, run}
use jsm.Run.Listening.{IsSafe, run-IsSafe}
use jsm.Run.Brackets.{replay, replay-run}
use jsm.Middleware.{Written, nothing_written, Outcome, returned, panicked, wrapped_server}
use jsm.Middleware.Panics.{wrapped_server_outcome, Stands}
use jsm.Examples.Samples.{
  names, resolver, request, applications, two_owners, never, listed-IsCollection,
}
use jsm.Examples.Access.{token}
use jsm.Examples.Accounts.{deps, inputs, stores}
use jsm.Examples.Limits.{policy, one_bucket}

abbrev pub parts : Parts
parts = record {
  deps = deps;
  apps = applications;
  parse_url = λ s. none;
  unmarshal_time = λ s. none;
  unmarshal_compensation = λ s. none;
  net = names;
  resolver = resolver;
  sum256 = λ s. s;
  policy = policy;
  store = memory_store 7;
  wire = record {
    unmarshal_create = λ s. err (other "json");
    unmarshal_update = λ s. err (other "json");
    query_value = λ r name. [];
    path_id = λ r. text "2";
  };
  unmarshal_log_in = λ s. err (other "json");
  unmarshal_change_password = λ s. err (other "json");
  unmarshal_sign_up = λ s. err (other "json");
  ping_mongo = none;
  ping_redis = none;
}

abbrev pub world : World parts
world = record { stores = stores; applications = two_owners; counters = one_bucket }

-- Ann, signed in, asks to delete an application of Bob.
abbrev pub deletion : Request
deletion =
    request (text "DELETE") (text "/applications/2") (text "w") ((text "X-Csrf-Token", token) ∷ [])
      ((text "c", token) ∷ (text "s", text "k") ∷ [])

pub only_ann :
    (user_id : Bytes)
    → SignedInAs parts inputs deletion world user_id
    → ¬ Names parts inputs never (λ st. st) (listed-IsCollection _ _) (text "bob") user_id
unfolding cookie get_user_id_from_request
only_ann user_id i named = absurd (ground (arith, i.sent, i.stored, named))

-- Ann, signed in, lists her applications.
abbrev pub listing : Request
listing = request (text "GET") (text "/applications") (text "w") [] ((text "s", text "k") ∷ [])

serve-Shows_example :
    Shows
      (IsForOwner parts inputs never (λ st. st) (listed-IsCollection _ _) listing world)
      (serve parts inputs listing world).0.body
serve-Shows_example =
    serve-Shows parts inputs never (λ st. st) (listed-IsCollection _ _) listing world

-- The counters' connection is refused; the database's is open by then.
abbrev outside : Outside
outside = record {
  connect_mongo = none;
  ping_mongo = none;
  ensure_indexes = none;
  ping_redis = some (other "refused");
  random_secret = some (text "s");
  ending = signalled none;
}

replay-run_example : replay (run names (load [] []) outside).0 [] ≡ some []
replay-run_example = replay-run names (load [] []) outside

-- A handler that panics once it has sent a status.
abbrev half_done : Written
half_done = record { status = some 200; bodies = [] }

abbrev panicking : Request → Bytes → Outcome Bytes
panicking r st = panicked half_done st

wrapped_server_outcome_example :
    ((w : Written) × (st' : Bytes) × (panicking deletion [] ≡ returned w st')
      × (wrapped_server panicking deletion [] ≡ returned w st'))
    ⊎ (((st' : Bytes) × (panicking deletion [] ≡ panicked nothing_written st')
          × (wrapped_server panicking deletion []
              ≡ returned
                  (record { status = some 500; bodies = error_body "INTERNAL_SERVER_ERROR" ∷ [] })
                  st'))
        ⊎ ((w : Written) × (st' : Bytes) × (panicking deletion [] ≡ panicked w st')
            × (w ≢ nothing_written)
            × ((code : ℕ) × Stands w code
                × (wrapped_server panicking deletion []
                    ≡ returned
                        (record {
                          status = some code;
                          bodies = w.bodies ++ error_body "INTERNAL_SERVER_ERROR" ∷ [];
                        })
                        st'))))
wrapped_server_outcome_example = wrapped_server_outcome panicking deletion []

-- A run that gets to listen.
abbrev up : Outside
up = record outside { ping_redis = none }

run-IsSafe_example : All (IsSafe names (load [] []) up) (run names (load [] []) up).0
run-IsSafe_example = run-IsSafe names (load [] []) up (λ s e q. absurd (ground (arith, e, q)))
