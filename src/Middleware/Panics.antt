-- ===== src/Middleware/Panics.antt =====
-- What becomes of a panic.
use jsm.Common.{
  ℕ, ◌≡◌, refl, ◌≢◌, ◌⊎◌, inl, inr, none, some, List, [], ◌∷◌, ◌++◌, arith, Option-cases,
}
use jsm.Http.{Request, Body, error_body}
use jsm.Middleware.{
  Written, nothing_written, Outcome, returned, panicked, Server, wrapped_server, write_error,
}

Outcome-cases :
    {S : Type 0} (x : Outcome S)
    → ((w : Written) × (st : S) × (x ≡ returned w st))
      ⊎ ((w : Written) × (st : S) × (x ≡ panicked w st))
Outcome-cases (returned w st) = inl (w, st, refl)
Outcome-cases (panicked w st) = inr (w, st, refl)

Written-cases : (w : Written) → (w ≡ nothing_written) ⊎ (w ≢ nothing_written)
Written-cases w = elim (Option-cases w.status) [
  | inr (code, e) ↦ inr (λ q. ground arith)
  | inl e ↦ bodies w.bodies e refl
]
  where
    bodies :
        (bs : List Body)
        → w.status ≡ none
        → w.bodies ≡ bs
        → (w ≡ nothing_written) ⊎ (w ≢ nothing_written)
    bodies [] e f = inl (ground arith)
    bodies (b ∷ bs) e f = inr (λ q. ground arith)

-- The status that the client sees: the one written, or 500 where none is.
abbrev pub Stands : Written → ℕ → Type 0
Stands w code = (w.status ≡ some code) ⊎ ((w.status ≡ none) × (code ≡ 500))

module _ {S : Type 0} (next : Server S) (r : Request) (st : S) where
  -- No panic leaves the server. What a handler returns is passed on as it is. A panic before
  -- anything was written becomes a 500 with the generic code alone; after anything was
  -- written a status that was written stands, 500 is the status otherwise, and the code is
  -- appended to the bodies that were written.
  pub wrapped_server_outcome :
      ((w : Written) × (st' : S) × (next r st ≡ returned w st')
        × (wrapped_server next r st ≡ returned w st'))
      ⊎ (((st' : S) × (next r st ≡ panicked nothing_written st')
            × (wrapped_server next r st
                ≡ returned
                    (record { status = some 500; bodies = error_body "INTERNAL_SERVER_ERROR" ∷ [] })
                    st'))
          ⊎ ((w : Written) × (st' : S) × (next r st ≡ panicked w st')
              × (w ≢ nothing_written)
              × ((code : ℕ) × Stands w code
                  × (wrapped_server next r st
                      ≡ returned
                          (record {
                            status = some code;
                            bodies = w.bodies ++ error_body "INTERNAL_SERVER_ERROR" ∷ [];
                          })
                          st'))))
  unfolding wrapped_server write_error
  wrapped_server_outcome = elim (Outcome-cases (next r st)) [
    | inl (w, st', e) ↦ inl (w, st', e, ground arith)
    | inr (w, st', e) ↦ elim (Written-cases w) [
      | inl q ↦ inr (inl (st', ground arith, ground arith))
      | inr ne ↦ elim (Option-cases w.status) [
        | inr (code, s) ↦ inr (inr (w, st', e, ne, (code, inl s, ground arith)))
        | inl s ↦ inr (inr (w, st', e, ne, (500, inr (s, refl), ground arith)))
      ]
    ]
  ]

  -- A response that a handler has begun keeps its status through a panic: the client sees the
  -- handler's status, not 500.
  pub wrapped_server_begun :
      (code : ℕ) (bodies : List Body) (st' : S)
      → next r st ≡ panicked (record { status = some code; bodies = bodies }) st'
      → wrapped_server next r st
        ≡ returned
            (record {
              status = some code;
              bodies = bodies ++ error_body "INTERNAL_SERVER_ERROR" ∷ [];
            })
            st'
  unfolding wrapped_server write_error
  wrapped_server_begun code bodies st' e = ground arith
