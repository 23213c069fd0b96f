-- ===== src/Examples/Histories.antt =====
-- The theorems on sequences of requests, at concrete inputs.
use jsm.Common.{◌≡◌, refl, ◌⊎◌, inl, none, List, [], ◌∷◌, ◌++◌, arith, Bytes, text, cut_last, split}
use jsm.Domain.{is_valid_application_status}
use jsm.Sanitise.{max_company_name}
use jsm.Applications.Cleaned.{IsNamed}
use jsm.Server.{World, serve, Parts}
use jsm.Server.History.{AnyRequest, History, Elapses, fresh, served, elapsed}
use jsm.Server.History.Storable.{IsStored, AllStored, history-AllStored}
use jsm.Server.History.Untouched.{theirs, history-applications_of}
use jsm.Examples.Samples.{application, never, listed-IsCollection, plain_hmac, request}
use jsm.Examples.Accounts.{inputs}
use jsm.Examples.Whole.{parts, world, deletion, listing, only_ann}
use jsm.RateLimit.{allow, rules_of}
use jsm.RateLimit.Guard.{allow_request}
use jsm.Metrics.{ok}
use jsm.Handlers.Auth.{authenticate_handler}
use jsm.Handlers.Routes.{new_router, public_target, segments, unmatched, is_clean}
use jsm.Session.Middleware.{csrf_middleware}
use jsm.Http.{decode, limit_body, header_get, Request, cookie}
use jsm.Csrf.{mint_csrf_token, verify_csrf_token, sign_csrf, url_encode}
use jsm.Accounts.{authenticate}
use jsm.Accounts.Email.{normalize_email}
use jsm.Mongo.Users.{lookup_user_by_email}
use jsm.Password.{verify_password}
use jsm.Text.{to_lower, trim_space}
use jsm.Session.{create_session, new_csrf_cookie, session_id_from_request, get_user_id_from_request}
use jsm.Server.Root.{SignedInAs}
use jsm.Server.History.Logins.{HasLoggedIn, history-HasLoggedIn}
use jsm.Server.History.Sessions.{owner}
use jsm.Examples.Limits.{one_bucket}
use jsm.Server.History.Passwords.{account, IsFresh, HasChanged, history-account}
use jsm.Examples.Stores.{
  unique_users-AreUsers, stored_deps, empty_stores, hash_at, hashes-IsHashStore,
}

abbrev listed_then_deleted : World parts
listed_then_deleted = (serve parts inputs deletion (serve parts inputs listing world).1).1

-- The samples' first store of sessions has no hashes.
abbrev nothing : List (Bytes × Bytes) → Bytes → List (Bytes × Bytes)
nothing st key = []

abbrev two_requests : History parts nothing (AnyRequest parts) world listed_then_deleted
two_requests = served inputs deletion (served inputs listing fresh tt refl) tt refl

sample-IsStored :
    (id user_id company : Bytes)
    → IsNamed max_company_name company
    → IsStored (λ s. none) (application id user_id company)
unfolding is_valid_application_status
sample-IsStored id user_id company named = record {
  owned = refl;
  company = named;
  position = ((λ e. ground arith), (omega arith, ground arith));
  status_valid = refl;
  link = inl refl;
  description = (omega arith, tt);
  notes_safe = (omega arith, tt);
  locations = (tt, omega arith);
  tagged = (tt, omega arith);
  pay = tt;
}

history-AllStored_example :
    AllStored parts never (λ st. st) (listed-IsCollection _ _) listed_then_deleted
history-AllStored_example =
    history-AllStored parts never (λ st. st) (listed-IsCollection _ _) nothing two_requests
      (
        sample-IsStored (text "1") (text "ann") (text "X")
            ((λ e. ground arith), (omega arith, ground arith)),
        (
          sample-IsStored (text "2") (text "bob") (text "Y")
              ((λ e. ground arith), (omega arith, ground arith)),
          tt,
        ),
      )

history-applications_of_example :
    theirs parts never
      (λ st. st)
      (listed-IsCollection _ _)
      (text "bob")
      nothing
      inputs
      (serve parts inputs deletion world).1
    ≡ theirs parts never (λ st. st) (listed-IsCollection _ _) (text "bob") nothing inputs world
history-applications_of_example =
    history-applications_of parts never (λ st. st) (listed-IsCollection _ _) (text "bob") nothing
      inputs (served inputs deletion fresh only_ann refl)

-- Ann logs in, and comes back.
abbrev home : Parts
home = record parts {
  deps = stored_deps;
  unmarshal_log_in = λ s. ok (record { email = text "a@x.y"; password = text "Secret!!" });
}

abbrev first_visit : World home
first_visit = record { stores = empty_stores; applications = []; counters = one_bucket }

abbrev fresh_token : Bytes
fresh_token = text "bg!" ++ b'.' ∷ sign_csrf plain_hmac (text "key") (text "bg!")

abbrev login : Request
login =
    request (text "POST") (text "/login") (text "w") ((text "X-Csrf-Token", fresh_token) ∷ [])
      ((text "c", fresh_token) ∷ [])

abbrev back_home : World home
back_home = (serve home inputs login first_visit).1

-- Nothing runs out in the meantime.
abbrev no_time : Elapses home hash_at back_home back_home
no_time = record { accounts = refl; applications = refl; sessions = λ key. inl refl }

abbrev visit : Request
visit = request (text "GET") (text "/me") (text "w") [] ((text "s", url_encode (text "u")) ∷ [])

stored_session :
    get_user_id_from_request stored_deps.rdb stored_deps.sm back_home.stores.sessions
      (url_encode (text "u"))
    ≡ ok (text "#ann")
unfolding serve new_router csrf_middleware cookie header_get public_target unmatched is_clean
    segments authenticate_handler split decode limit_body authenticate lookup_user_by_email
    normalize_email to_lower trim_space verify_password create_session new_csrf_cookie
    mint_csrf_token get_user_id_from_request verify_csrf_token session_id_from_request url_encode
    sign_csrf cut_last allow_request allow rules_of
stored_session = refl

comes_back : SignedInAs home inputs visit back_home (text "#ann")
unfolding cookie url_encode
comes_back = record {
  session_id = url_encode (text "u");
  sent = refl;
  nonempty_id = λ e. ground arith;
  stored = stored_session;
  nonempty_user = λ e. ground arith;
}

abbrev in_and_back : History home hash_at (AnyRequest home) first_visit back_home
in_and_back = elapsed (served inputs login fresh tt refl) no_time

history-HasLoggedIn_example :
    (owner home hash_at hashes-IsHashStore first_visit.stores.sessions comes_back.session_id
      ≡ text "#ann")
    ⊎ HasLoggedIn home hash_at hashes-IsHashStore in_and_back comes_back.session_id (text "#ann")
history-HasLoggedIn_example =
    history-HasLoggedIn home hash_at hashes-IsHashStore in_and_back inputs visit (text "#ann")
      comes_back

-- Ann's login leaves her account as it was.
abbrev no_sign_up :
    History home hash_at
      (IsFresh home (λ st. st) unique_users-AreUsers (text "ann") hash_at)
      first_visit
      back_home
no_sign_up = elapsed (served inputs login fresh refl refl) no_time

history-account_example :
    (account home (λ st. st) unique_users-AreUsers (text "ann") hash_at back_home
      ≡ account home (λ st. st) unique_users-AreUsers (text "ann") hash_at first_visit)
    ⊎ HasChanged home (λ st. st) unique_users-AreUsers (text "ann") hash_at no_sign_up
history-account_example =
    history-account home (λ st. st) unique_users-AreUsers (text "ann") hash_at no_sign_up
