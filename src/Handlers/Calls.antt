-- ===== src/Handlers/Calls.antt =====
-- The call that a handler of backend/internal/handlers/application.go makes, which leaves the
-- state in which the handler ends.
use jsm.Common.{◌≡◌, ◌⊎◌, inl, inr, some, arith, Option-cases, Bytes}
use jsm.Metrics.{Result-cases}
use jsm.Domain.{CreateApplicationRequest, UpdateApplicationRequest}
use jsm.Http.{Request, decode, limit_body}
use jsm.Handlers.{Wire, ApplicationService, create_handler, update_handler, delete_handler}

module _ {S : Type 0} (w : Wire) (service : ApplicationService S) (r : Request) (st : S) where
  pub create_handler_state :
      ((create_handler w service r st).1 ≡ st)
      ⊎ ((id : Bytes) × (req : CreateApplicationRequest) × (r.user_id ≡ some id)
          × ((create_handler w service r st).1 ≡ (service.create id req st).1))
  unfolding create_handler
  create_handler_state = elim (Option-cases r.user_id) [
    | inl e ↦ inl (ground arith)
    | inr (id, e) ↦ elim (Result-cases (decode w.unmarshal_create (limit_body r.body))) [
      | inr (x, f) ↦ inl (ground arith)
      | inl (req, f) ↦ inr (id, req, e, ground arith)
    ]
  ]

  pub update_handler_state :
      ((update_handler w service r st).1 ≡ st)
      ⊎ ((id : Bytes) × (req : UpdateApplicationRequest) × (r.user_id ≡ some id)
          × ((update_handler w service r st).1 ≡ (service.update id (w.path_id r) req st).1))
  unfolding update_handler
  update_handler_state = elim (Option-cases r.user_id) [
    | inl e ↦ inl (ground arith)
    | inr (id, e) ↦ elim (Result-cases (decode w.unmarshal_update (limit_body r.body))) [
      | inr (x, f) ↦ inl (ground arith)
      | inl (req, f) ↦ inr (id, req, e, ground arith)
    ]
  ]

  pub delete_handler_state :
      ((delete_handler w service r st).1 ≡ st)
      ⊎ ((id : Bytes) × (r.user_id ≡ some id)
          × ((delete_handler w service r st).1 ≡ (service.delete id (w.path_id r) st).1))
  unfolding delete_handler
  delete_handler_state = elim (Option-cases r.user_id) [
    | inl e ↦ inl (ground arith)
    | inr (id, e) ↦ inr (id, e, ground arith)
  ]
