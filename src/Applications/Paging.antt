-- ===== src/Applications/Paging.antt =====
-- The service's List.
use jsm.Common.{
  ℕ, ◌-◌, ◌*◌, ◌≤◌, ◌≡◌, refl, sym, ap, ◌∙◌, inl, inr, Bool, not, ◌&&◌, some, List, [], arith, ltb,
  Bool-cases, Option-cases, length, Bytes, same,
}
use jsm.Number.{ℤ, pos, int64_of}
use mathlib.Core.Path.{subst}
use jsm.Metrics.{Result-cases}
use jsm.Domain.{ObjectId, Application, ListApplicationsQuery, ApplicationPage}
use jsm.Mongo.{IsCollection}
use jsm.Mongo.Documents.{matches, apply_fields}
use jsm.Mongo.Applications.{Apps, list_applications, list_filter, page_of}
use jsm.Applications.{
  Parsers, list, bound_page, bound_page_size, check_query, bound_query, user_oid, negsuc, ok,
  is_valid_application_status,
}

-- The page number and size that a client may get.
abbrev AreBounded : (page page_size : ℤ) → Type 0
AreBounded page page_size =
    ((n : ℕ) × (page ≡ pos n) × (1 ≤ n)) × ((n : ℕ) × (page_size ≡ pos n) × (1 ≤ n) × (n ≤ 200))

bounded-AreBounded :
    (q : ListApplicationsQuery) → AreBounded (bound_query q).page (bound_query q).page_size
unfolding bound_query
bounded-AreBounded q = (page q.page, size q.page_size)
  where
    page : (z : ℤ) → (n : ℕ) × (bound_page z ≡ pos n) × (1 ≤ n)
    page (pos n) = elim (Bool-cases (ltb n 1)) [
      | inl e ↦ (1, ground arith, ground arith)
      | inr e ↦ (n, ground arith, ground arith)
    ]
    page (negsuc n) = (1, refl, ground arith)

    size : (z : ℤ) → (n : ℕ) × (bound_page_size z ≡ pos n) × (1 ≤ n) × (n ≤ 200)
    size (pos n) = elim (Bool-cases (ltb n 1)) [
      | inl e ↦ (20, ground arith, ground arith, ground arith)
      | inr e ↦ elim (Bool-cases (ltb 200 n)) [
        | inl f ↦ (200, ground arith, ground arith, ground arith)
        | inr f ↦ (n, ground arith, ground arith, ground arith)
      ]
    ]
    size (negsuc n) = (20, refl, ground arith, ground arith)

check_query-bounded :
    (query : ListApplicationsQuery) {q : ListApplicationsQuery}
    → check_query query ≡ ok q
    → q ≡ bound_query query
unfolding check_query
check_query-bounded query {q = q} e =
    elim (Bool-cases
      (not (same query.status []) && not (is_valid_application_status query.status))) [
        | inl t ↦ absurd (ground arith)
        | inr f ↦ elim (Bool-cases (ltb 200 (length query.search))) [
          | inl t ↦ absurd (ground arith)
          | inr g ↦ ground (arith, g)
        ]
      ]

check_query-AreBounded :
    (query : ListApplicationsQuery) {q : ListApplicationsQuery}
    → check_query query ≡ ok q
    → AreBounded q.page q.page_size
unfolding check_query
check_query-AreBounded query {q = q} e =
    elim (Bool-cases
      (not (same query.status []) && not (is_valid_application_status query.status))) [
        | inl t ↦ absurd (ground arith)
        | inr f ↦ elim (Bool-cases (ltb 200 (length query.search))) [
          | inl t ↦ absurd (ground arith)
          | inr g ↦ let paged = bounded-AreBounded query in ground (arith, g)
        ]
      ]

module _ (p : Parsers) (apps : Apps) (st : apps.State) where
  -- The page holds what the store answers when asked for the applications of the user that the
  -- query chooses, `size` of them at most, from the page's first on. The client is told this
  -- number and size.
  pub record IsPage (user_id : Bytes) (query : ListApplicationsQuery) (page : ApplicationPage)
      : Type 0 where
    pub uid : ObjectId
    pub names : p.object_id_from_hex user_id ≡ some uid
    pub number : ℕ
    pub size : ℕ
    pub number_shown : page.page ≡ pos number
    pub size_shown : page.page_size ≡ pos size
    pub number_bound : 1 ≤ number
    pub size_bounds : (1 ≤ size) × (size ≤ 200)
    pub answered :
        apps.find st
          (list_filter uid query)
          (record { skip = int64_of ((number - 1) * size); limit = pos size })
        ≡ ok page.applications

  list_applications_found :
      (uid : ObjectId) (q : ListApplicationsQuery) {r : List Application × ℕ}
      → list_applications apps st uid q ≡ ok r
      → apps.find st (list_filter uid q) (page_of apps q) ≡ ok r.0
  unfolding list_applications
  list_applications_found uid q e =
      let f = list_filter uid q in
      elim (Result-cases (apps.count_documents st f)) [
        | inr (x, g) ↦ absurd (ground (arith, g))
        | inl (total, g) ↦ elim (Result-cases (apps.find st f (page_of apps q))) [
          | inr (x, h) ↦ absurd (ground (arith, g, h))
          | inl (ds, h) ↦ ground (arith, g, h)
        ]
      ]

  asked-IsPage :
      (user_id : Bytes) (query : ListApplicationsQuery) {page : ApplicationPage}
      → list p apps user_id query st ≡ ok page
      → IsPage user_id query page
  unfolding list user_oid check_query list_filter bound_query
  asked-IsPage user_id query {page = page} e = elim (Option-cases (p.object_id_from_hex user_id)) [
    | inl f ↦ absurd (ground (arith, f))
    | inr (uid, f) ↦ elim (Result-cases (check_query query)) [
      | inr (x, g) ↦ absurd (ground (arith, f, g))
      | inl (q, g) ↦ elim (Result-cases (list_applications apps st uid q)) [
        | inr (x, h) ↦ absurd (ground (arith, f, g, h))
        | inl (r, h) ↦
            let ((number, at, first), (size, limit, some_room, room)) =
              check_query-AreBounded query g in
            let is : page ≡ record {
              applications = r.0;
              page = q.page;
              page_size = q.page_size;
              total = r.1;
            } =
              ground (arith, f, g, h) in
            let bounded = check_query-bounded query g in
            let filters : list_filter uid q ≡ list_filter uid query =
              ap (list_filter uid) bounded in
            let asked = list_applications_found uid q h in
            let paged : page_of apps q
                ≡ record { skip = int64_of ((number - 1) * size); limit = pos size } =
              ground (arith, at, limit) in
            record {
              uid = uid;
              names = f;
              number = number;
              size = size;
              number_shown = cc (is, at);
              size_shown = cc (is, limit);
              number_bound = first;
              size_bounds = (some_room, room);
              answered =
                  subst
                    (λ x.
                      apps.find st x
                        (record { skip = int64_of ((number - 1) * size); limit = pos size })
                      ≡ ok page.applications)
                    (filters)
                    (subst (λ y. apps.find st (list_filter uid q) y ≡ ok page.applications) paged
                      (asked ∙ ap (λ x. ok x.applications) (sym is)));
            }
      ]
    ]
  ]

  -- A listing that is answered holds what the store found of the user's applications for the page
  -- that it names, from page 1 on, and no more applications than the page's size, which is 1 to
  -- 200, whatever the client asked for.
  pub list-IsPage :
      (like : Bytes → Application → Bool) (docs : apps.State → List Application)
      (laws : IsCollection apps (matches like) apply_fields docs) (user_id : Bytes)
      (query : ListApplicationsQuery) {page : ApplicationPage}
      → list p apps user_id query st ≡ ok page
      → (is : IsPage user_id query page) × (length page.applications ≤ is.size)
  list-IsPage like docs laws user_id query {page = page} e =
      let is = asked-IsPage user_id query {page = page} e in
      (
        is,
        laws.find_limit_law st (list_filter is.uid query)
            (record { skip = int64_of ((is.number - 1) * is.size); limit = pos is.size })
            is.answered refl is.size_bounds.0,
      )
