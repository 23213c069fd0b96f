-- ===== src/Middleware.antt =====
-- backend/internal/http/middleware: RecoverMiddleware and LoggingMiddleware, over handlers that may
-- panic. A response is written piece by piece, as net/http documents it: the first status stands,
-- and bodies are appended. Log lines are kept as values, without their times.
pub mod Panics
use jsm.Common.{ℕ, String, Option, none, some, List, [], ◌∷◌, ◌++◌, Bytes}
use jsm.Http.{Request, Body, error_body}

-- What a ResponseWriter has been given.
pub record Written : Type 0 where
  pub status : Option ℕ
  pub bodies : List Body

abbrev pub nothing_written : Written
nothing_written = record { status = none; bodies = [] }

abbrev pub write_header : ℕ → Written → Written
write_header code w = elim w.status [ none ↦ record w { status = some code } | some first ↦ w ]

-- A body without a status is a 200.
abbrev pub write_body : Body → Written → Written
write_body body w = let w' = write_header 200 w in record w' { bodies = w'.bodies ++ body ∷ [] }

-- WriteJSONError: the status, then the body.
unfoldable pub write_error : String → ℕ → Written → Written
write_error message code w = write_body (error_body message) (write_header code w)

-- How a handler ends, with what it has written and changed until then.
pub data Outcome (S : Type 0) : Type 0 where
  returned panicked : Written → S → Outcome S

abbrev pub Server : Type 0 → Type 0
Server S = Request → S → Outcome S

pub data LogLine : Type 0 where
  init_request : (method path remote_addr : Bytes) → LogLine
  finish_request : LogLine

-- "Finish Request" comes after the handler, and so not after a panic.
unfoldable pub logging_middleware : {S : Type 0} → Server S → Request → S → List LogLine × Outcome S
logging_middleware next r st =
    let first = init_request r.method r.path r.remote_addr in
    elim (next r st) [
      | returned w st' ↦ (first ∷ finish_request ∷ [], returned w st')
      | panicked w st' ↦ (first ∷ [], panicked w st')
    ]

unfoldable pub recover_middleware : {S : Type 0} → Server S → Server S
recover_middleware next r st = elim (next r st) [
  | returned w st' ↦ returned w st'
  | panicked w st' ↦ returned (write_error "INTERNAL_SERVER_ERROR" 500 w) st'
]

-- The order of NewRouter: recovery is outermost.
unfoldable pub wrapped_server : {S : Type 0} → Server S → Server S
unfolding recover_middleware logging_middleware
wrapped_server next = recover_middleware (λ r st. (logging_middleware next r st).1)
