-- ===== src/Examples/Samples.antt =====
-- Small instances of the parameters: an HMAC, addresses, a collection on a list, a session store.
use jsm.Common.{
  ℕ, zero, suc, ◌≤◌, ◌≡◌, refl, inl, Bool, true, false, not, none, some, List, [], ◌∷◌, ◌++◌, arith,
  if◌then◌else◌, length, take, length-take-le, All, All-take, keep, Bytes, text, same,
}
use mathlib.Core.Path.{subst}
use jsm.Number.{pos, ℤ, negsuc}
use jsm.Metrics.{Result, ok}
use jsm.Domain.{Application}
use jsm.Http.{Request, Response, write_json, status_ok}
use jsm.RateLimit.ClientIp.{NetIp, Resolver}
use jsm.Mongo.{
  Collection, inserted, IsCollection, first, update_first, remove_first, found_map, how_many,
}
use jsm.Mongo.Applications.{Apps}
use jsm.Mongo.Documents.{matches, apply_fields}
use jsm.Session.{Redis, SessionManager}

abbrev pub plain_hmac : Bytes → Bytes → Bytes
plain_hmac key message = take 3 (key ++ message)

abbrev pub manager : SessionManager
manager = record {
  ttl = pos 1000;
  session_cookie_name = text "s";
  csrf_cookie_name = text "c";
  redirect_cookie_name = text "r";
  redirect_ttl = 60;
  domain = [];
  secure = true;
  csrf_secret = text "key";
}

abbrev pub session_of : List (Bytes × Bytes) → Bytes → Result (List (Bytes × Bytes))
session_of [] key = ok []
session_of ((k, user) ∷ sessions) key =
    if same k key then ok ((text "user_id", user) ∷ []) else session_of sessions key

-- Sessions as pairs of a key and a user.
abbrev pub table : Redis
table = record {
  State = List (Bytes × Bytes);
  hset = λ st key fields. (none, (key, text "u") ∷ st);
  expire = λ st key ttl. (none, st);
  hgetall = session_of;
  del = λ st key. (none, keep (λ e. not (same e.0 key)) st);
}

-- An address is its text, and a prefix one address.
abbrev pub names : NetIp
names = record {
  Addr = Bytes;
  Prefix = Bytes;
  parse = λ s. if same s [] then none else some s;
  parse_addr_port = λ s. none;
  split_host_port = λ s. none;
  unmap = λ a. a;
  is_4 = λ a. true;
  is_4_in_6 = λ a. false;
  prefix_64 = λ a. none;
  addr_string = λ a. a;
  prefix_string = λ p. p;
  contains = same;
  parse_prefix = λ s. some s;
  masked = λ p. p;
  single_host = λ a. a;
}

abbrev pub resolver : Resolver names
resolver = record { trusted = text "p" ∷ text "q" ∷ []; header = [] }

abbrev pub request :
    (method path remote : Bytes) → List (Bytes × Bytes) → List (Bytes × Bytes) → Request
request method path remote headers cookies = record {
  method = method;
  path = path;
  remote_addr = remote;
  headers = headers;
  cookies = cookies;
  body = [];
  user_id = none;
}

-- A route that succeeds.
abbrev pub serve : {S : Type 0} → Request → S → Response × S
serve r st = (write_json status_ok 200, st)

All-keep : {D : Type 0} (p : D → Bool) (ds : List D) → All (λ d. p d ≡ true) (keep p ds)
All-keep p [] = tt
All-keep p (d ∷ ds) = ground (arith, All-keep p ds)

-- As many documents as the limit says; a limit of 0 is none.
abbrev limited : {D : Type 0} → ℤ → List D → List D
limited (pos zero) ds = ds
limited (pos (suc n)) ds = take (suc n) ds
limited (negsuc n) ds = take (suc n) ds

All-limited : {D : Type 0} (P : D → Type 0) (z : ℤ) (ds : List D) → All P ds → All P (limited z ds)
All-limited P (pos zero) ds h = h
All-limited P (pos (suc n)) ds h = All-take P (suc n) ds h
All-limited P (negsuc n) ds h = All-take P (suc n) ds h

length-limited :
    {D : Type 0} (z : ℤ) (n : ℕ) (ds : List D) → z ≡ pos n → 1 ≤ n → length (limited z ds) ≤ n
length-limited (pos zero) n ds e le = absurd (ground (arith, e, le))
length-limited (pos (suc m)) n ds e le = let h = length-take-le (suc m) ds in ground (arith, e, h)
length-limited (negsuc m) n ds e le = cc

module _ {D F U : Type 0} (matches : F → D → Bool) (apply : U → D → D) where
  -- A collection whose state is its documents, and which never fails.
  abbrev pub listed : Collection D F U
  listed = record {
    State = List D;
    find_one = λ st f. first (matches f) st;
    insert_one = λ st d. (inserted, d ∷ st);
    update_one =
        λ st f u. (ok (how_many (first (matches f) st)), update_first (matches f) (apply u) st);
    find_one_and_update = λ st f u.
        (found_map (apply u) (first (matches f) st), update_first (matches f) (apply u) st);
    delete_one = λ st f. (ok (how_many (first (matches f) st)), remove_first (matches f) st);
    count_documents = λ st f. ok (length (keep (matches f) st));
    find = λ st f page. ok (limited page.limit (keep (matches f) st));
  }

  pub listed-IsCollection : IsCollection listed matches apply (λ st. st)
  listed-IsCollection = record {
    insert_one_law = λ st d. inl ([], st, refl, refl);
    find_one_law = λ st f. inl refl;
    update_one_law = λ st f u. inl (inl refl, refl);
    find_one_and_update_law = λ st f u. inl (inl refl, refl);
    delete_one_law = λ st f. inl (inl refl, refl);
    find_law = λ st f page e.
        subst (λ x. All (λ d. matches f d ≡ true) x) (cc e)
          (All-limited (λ d. matches f d ≡ true) page.limit (keep (matches f) st)
            (All-keep (matches f) st));
    find_limit_law = λ st f page {ds} {n} e l le.
        subst (λ x. length x ≤ n) (cc e) (length-limited page.limit n (keep (matches f) st) l le);
  }

abbrev pub never : Bytes → Application → Bool
never pattern app = false

abbrev pub applications : Apps
applications = listed (matches never) apply_fields

abbrev pub application : (id user_id company : Bytes) → Application
application id user_id company = record {
  id = id;
  user_id = user_id;
  company_name = company;
  position_title = text "dev";
  status = text "applied";
  location = [];
  job_link = [];
  job_description = [];
  tags = [];
  notes = [];
  compensation = none;
  resumes = [];
  applied_at = 0;
  next_follow_up_at = none;
  created_at = 0;
  updated_at = 0;
}

-- Two users with one application each.
abbrev pub two_owners : List Application
two_owners =
    application (text "1") (text "ann") (text "X")
    ∷ application (text "2") (text "bob") (text "Y")
    ∷ []
