-- ===== src/Session/Stored/Creation.antt =====
-- What SessionStore.Create and CreateSession leave in Redis.
use jsm.Common.{
  ◌≡◌, refl, sym, ap, ◌∙◌, ◌⊎◌, inl, inr, true, false, Option, none, some, List, [], ◌∷◌, ◌++◌,
  arith, Bool-cases, Option-cases, Bytes, text, same, same_iff,
}
use jsm.Metrics.{AppError, Result, ok}
use jsm.Http.{Cookie}
use jsm.Number.{ℤ, is_positive}
use jsm.Csrf.{url_encode}
use jsm.Session.{Redis, SessionManager, session_key, field, store_create, create_session}
use jsm.Session.Stored.{IsHashStore, owner_of}

module _ (rdb : Redis) (stored : rdb.State → Bytes → List (Bytes × Bytes))
    (laws : IsHashStore rdb stored) (sm : SessionManager) (sid : Bytes)
    (fields : List (Bytes × Bytes)) (ttl : ℤ) (st : rdb.State) where
  abbrev made : Option AppError × rdb.State
  made = store_create rdb sm sid fields ttl st

  -- A Create either stops after the HSET, which failed, or ends with the EXPIRE.
  store_create_cases :
      (((e : AppError) × ((rdb.hset st (session_key sid) fields).0 ≡ some e))
        × (made ≡ rdb.hset st (session_key sid) fields))
      ⊎ (((rdb.hset st (session_key sid) fields).0 ≡ none)
          × (made ≡ rdb.expire (rdb.hset st (session_key sid) fields).1 (session_key sid) ttl))
  unfolding store_create
  store_create_cases = elim (Option-cases (rdb.hset st (session_key sid) fields).0) [
    | inl e ↦ inr (e, ground arith)
    | inr (x, e) ↦ inl ((x, e), ground arith)
  ]

  store_create_elsewhere :
      (other : Bytes)
      → same sid other ≡ false
      → owner_of rdb stored made.1 other ≡ owner_of rdb stored st other
  store_create_elsewhere other f =
      let k = session_key sid in
      let first = laws.hset_elsewhere st k fields (session_key other) f in
      ap (λ h. field h (text "user_id"))
        (elim store_create_cases [
          | inl (_, e) ↦ rw e first
          | inr (_, e) ↦
              rw e
                (laws.expire_elsewhere (rdb.hset st k fields).1 k ttl (session_key other) f ∙ first)
        ])

  abbrev owner_made : rdb.State → Bytes
  owner_made s = owner_of rdb stored s sid

  abbrev overlaid : Bytes
  overlaid = field (fields ++ stored st (session_key sid)) (text "user_id")

  hset_own :
      (owner_made (rdb.hset st (session_key sid) fields).1 ≡ overlaid)
      ⊎ ((owner_made (rdb.hset st (session_key sid) fields).1 ≡ owner_made st)
          × ((e : AppError) × ((rdb.hset st (session_key sid) fields).0 ≡ some e)))
  hset_own = elim (laws.hset_law st (session_key sid) fields) [
    | inl g ↦ inl (g (text "user_id"))
    | inr (u, failed) ↦ inr (ap (λ h. field h (text "user_id")) u, failed)
  ]

  -- Under its own ID a Create leaves what was there, nothing, or the new fields over it.
  pub store_create_own :
      (owner_made made.1 ≡ owner_made st)
      ⊎ ((owner_made made.1 ≡ []) ⊎ (owner_made made.1 ≡ overlaid))
  unfolding field
  store_create_own = elim store_create_cases [
    | inl (_, e) ↦ rw e (elim hset_own [ inl g ↦ inr (inr g) | inr (u, _) ↦ inl u ])
    | inr (_, e) ↦
        let s = (rdb.hset st (session_key sid) fields).1 in
        rw e (elim (laws.expire_law s (session_key sid) ttl) [
          | inr (_, z) ↦ inr (inl (ap (λ h. field h (text "user_id")) z))
          | inl u ↦
              let same_owner = ap (λ h. field h (text "user_id")) u in
              elim hset_own [
                | inl g ↦ inr (inr (same_owner ∙ g))
                | inr (v, _) ↦ inl (same_owner ∙ v)
              ]
        ])
  ]

  -- A Create that succeeds, with a time to live, leaves the new fields.
  pub store_create_ok : is_positive ttl ≡ true → made.0 ≡ none → owner_made made.1 ≡ overlaid
  store_create_ok positive success = elim store_create_cases [
    | inl ((x, failed), e) ↦ absurd (ground (arith, e, failed))
    | inr (went, e) ↦
        let s = (rdb.hset st (session_key sid) fields).1 in
        rw e (elim (laws.expire_law s (session_key sid) ttl) [
          | inr (z, _) ↦ absurd (ground (arith, z, positive))
          | inl u ↦ ap (λ h. field h (text "user_id")) u ∙ (elim hset_own [
            | inl g ↦ g
            | inr (_, (x, failed)) ↦ absurd (ground (arith, went, failed))
          ])
        ])
  ]

module _ (rdb : Redis) (stored : rdb.State → Bytes → List (Bytes × Bytes))
    (laws : IsHashStore rdb stored) (sm : SessionManager) (uuid now user_id email username : Bytes)
    (st : rdb.State) where
  abbrev created : Result (Bytes × Cookie) × rdb.State
  created = create_session rdb sm uuid now user_id email username st

  abbrev session_fields : List (Bytes × Bytes)
  session_fields =
      (text "user_id", user_id)
      ∷ (text "email", email)
      ∷ (text "user_name", username)
      ∷ (text "lastLoginAttempt", now)
      ∷ []

  create_session_state :
      created.1 ≡ (store_create rdb sm (url_encode uuid) session_fields sm.ttl st).1
  unfolding create_session
  create_session_state =
      elim (Option-cases (store_create rdb sm (url_encode uuid) session_fields sm.ttl st).0) [
        | inl e ↦ ground arith
        | inr (x, e) ↦ ground arith
      ]

  create_session_stored :
      {answer : Bytes × Cookie}
      → created.0 ≡ ok answer
      → (store_create rdb sm (url_encode uuid) session_fields sm.ttl st).0 ≡ none
  unfolding create_session
  create_session_stored e =
      elim (Option-cases (store_create rdb sm (url_encode uuid) session_fields sm.ttl st).0) [
        | inl f ↦ f
        | inr (x, f) ↦ absurd (ground arith)
      ]

  -- CreateSession touches the session of the new ID alone, which is the user's if it is not what
  -- it was.
  pub create_session-owner_of :
      (other : Bytes)
      → (owner_of rdb stored created.1 other ≡ owner_of rdb stored st other)
        ⊎ ((owner_of rdb stored created.1 other ≡ [])
            ⊎ ((other ≡ url_encode uuid) × (owner_of rdb stored created.1 other ≡ user_id)))
  create_session-owner_of other = elim (Bool-cases (same (url_encode uuid) other)) [
    | inr f ↦ inl (
        rw create_session_state (
          store_create_elsewhere rdb stored laws sm (url_encode uuid) session_fields sm.ttl st other
            f))
    | inl t ↦
        let named = sym ((same_iff (url_encode uuid) other).0 t) in
        rw (create_session_state, named)
          (elim (store_create_own rdb stored laws sm (url_encode uuid) session_fields sm.ttl st) [
            | inl e ↦ inl e
            | inr (inl e) ↦ inr (inl e)
            | inr (inr e) ↦ inr (inr (refl, unfold field in e))
          ])
  ]

  -- A session that is created with a time to live is the user's.
  pub create_session_ok :
      {answer : Bytes × Cookie}
      → is_positive sm.ttl ≡ true
      → created.0 ≡ ok answer
      → owner_of rdb stored created.1 (url_encode uuid) ≡ user_id
  create_session_ok positive e = rw create_session_state (
      unfold field in
      store_create_ok rdb stored laws sm (url_encode uuid) session_fields sm.ttl st positive
        (create_session_stored e))
