-- ===== src/Session/Stored.antt =====
-- The sessions in Redis: what its documentation says of the commands that internal/store/redis/
-- session_store.go sends, and what backend/internal/authentication/session.go makes of them.
pub mod Creation
use jsm.Common.{
  ◌≡◌, refl, sym, ap, ◌⊎◌, inl, inr, false, some, List, [], ◌++◌, arith, Bool-cases, Option-cases,
  Bytes, text, same, same_iff,
}
use mathlib.Core.Path.{subst}
use jsm.Metrics.{AppError, Result, ok, err, Result-cases}
use jsm.Http.{Cookie}
use jsm.Number.{ℤ, is_positive}
use jsm.Csrf.{url_encode}
use jsm.Session.{
  Redis, SessionManager, session_key, field, store_create, create_session, delete_session,
  get_user_id_from_request,
}

-- `stored` is the hash under a key, empty where there is none. A write is carried out, or is not and
-- answers with an error, and reaches the hash under no other key; EXPIRE deletes it at a time that
-- is not positive.
pub record IsHashStore (rdb : Redis) (stored : rdb.State → Bytes → List (Bytes × Bytes))
    : Type 0 where
  pub hset_law :
      (st : rdb.State) (key : Bytes) (fields : List (Bytes × Bytes))
      → ((name : Bytes)
          → field (stored (rdb.hset st key fields).1 key) name
            ≡ field (fields ++ stored st key) name)
        ⊎ ((stored (rdb.hset st key fields).1 key ≡ stored st key)
            × ((e : AppError) × ((rdb.hset st key fields).0 ≡ some e)))
  pub expire_law :
      (st : rdb.State) (key : Bytes) (ttl : ℤ)
      → (stored (rdb.expire st key ttl).1 key ≡ stored st key)
        ⊎ ((is_positive ttl ≡ false) × (stored (rdb.expire st key ttl).1 key ≡ []))
  pub hgetall_law :
      (st : rdb.State) (key : Bytes)
      → (rdb.hgetall st key ≡ ok (stored st key)) ⊎ ((e : AppError) × (rdb.hgetall st key ≡ err e))
  pub del_law :
      (st : rdb.State) (key : Bytes)
      → (stored (rdb.del st key).1 key ≡ [])
        ⊎ ((stored (rdb.del st key).1 key ≡ stored st key)
            × ((e : AppError) × ((rdb.del st key).0 ≡ some e)))
  pub hset_elsewhere :
      (st : rdb.State) (key : Bytes) (fields : List (Bytes × Bytes)) (other : Bytes)
      → same key other ≡ false
      → stored (rdb.hset st key fields).1 other ≡ stored st other
  pub expire_elsewhere :
      (st : rdb.State) (key : Bytes) (ttl : ℤ) (other : Bytes)
      → same key other ≡ false
      → stored (rdb.expire st key ttl).1 other ≡ stored st other
  pub del_elsewhere :
      (st : rdb.State) (key other : Bytes)
      → same key other ≡ false
      → stored (rdb.del st key).1 other ≡ stored st other

session_key-same : (a b : Bytes) → same (session_key a) (session_key b) ≡ same a b
session_key-same a b = refl

module _ (rdb : Redis) (stored : rdb.State → Bytes → List (Bytes × Bytes)) where
  -- The user that a session ID stands for; "" where no session is stored.
  abbrev pub owner_of : rdb.State → Bytes → Bytes
  owner_of st sid = field (stored st (session_key sid)) (text "user_id")

module _ (rdb : Redis) (stored : rdb.State → Bytes → List (Bytes × Bytes))
    (laws : IsHashStore rdb stored) (sm : SessionManager) where
  abbrev owner : rdb.State → Bytes → Bytes
  owner = owner_of rdb stored

  pub get_user_id_from_request-owner_of :
      (st : rdb.State) (sid : Bytes)
      → (get_user_id_from_request rdb sm st sid ≡ ok (owner st sid))
        ⊎ ((e : AppError) × (get_user_id_from_request rdb sm st sid ≡ err e))
  unfolding get_user_id_from_request
  get_user_id_from_request-owner_of st sid = elim (laws.hgetall_law st (session_key sid)) [
    | inl f ↦ inl (ground arith)
    | inr (e, f) ↦ inr (e, ground arith)
  ]

  delete_session_state :
      (sid : Bytes) (st : rdb.State)
      → (delete_session rdb sm sid st).1 ≡ (rdb.del st (session_key sid)).1
  unfolding delete_session
  delete_session_state sid st = elim (Option-cases (rdb.del st (session_key sid)).0) [
    | inl e ↦ ground arith
    | inr (x, e) ↦ ground arith
  ]

  -- A deletion reaches the one session, which it ends unless Redis fails.
  pub delete_session-owner_of :
      (sid other : Bytes) (st : rdb.State)
      → (owner (delete_session rdb sm sid st).1 other ≡ owner st other)
        ⊎ (owner (delete_session rdb sm sid st).1 other ≡ [])
  unfolding field
  delete_session-owner_of sid other st = elim (Bool-cases (same sid other)) [
    | inr f ↦ inl (
        rw (delete_session_state sid st) (
          ap (λ h. field h (text "user_id"))
            (laws.del_elsewhere st (session_key sid) (session_key other) f)))
    | inl t ↦
        rw (delete_session_state sid st, sym ((same_iff sid other).0 t))
          (elim (laws.del_law st (session_key sid)) [
            | inl e ↦ inr (ap (λ h. field h (text "user_id")) e)
            | inr (e, _) ↦ inl (ap (λ h. field h (text "user_id")) e)
          ])
  ]

  -- What ends the session, unless Redis refuses.
  pub delete_session_ends :
      (sid : Bytes) (st : rdb.State)
      → (owner (delete_session rdb sm sid st).1 sid ≡ [])
        ⊎ ((e : AppError) × ((rdb.del st (session_key sid)).0 ≡ some e))
  unfolding field
  delete_session_ends sid st =
      rw (delete_session_state sid st) (elim (laws.del_law st (session_key sid)) [
        | inl e ↦ inl (ap (λ h. field h (text "user_id")) e)
        | inr (_, failed) ↦ inr failed
      ])
