-- ===== src/Server.antt =====
-- The whole server, as backend/internal/service/service.go (NewServices), internal/http/routers.go
-- (NewRouter) and cmd/api/main.go wire it: the services over the stores behind the interfaces that
-- the handlers take. One request reads the clock at one instant.
pub mod Root
pub mod Tenancy
pub mod Disclosure
pub mod History
use jsm.Common.{ℕ, Option, Bytes}
use jsm.Metrics.{Result, AppError}
use jsm.Domain.{
  Application, User, ApplicationPage, LogInRequest, ChangePasswordRequest, SignUpRequest,
  CreateApplicationRequest, UpdateApplicationRequest,
}
use jsm.Http.{Request, Response, Cookie}
use jsm.Sanitise.{Url}
use jsm.Domain.{CompensationInfo}
use jsm.RateLimit.{Key, Policy, Store}
use jsm.RateLimit.ClientIp.{NetIp, Resolver}
use jsm.RateLimit.Guard.{Guard, new_guard}
use jsm.Mongo.Applications.{Apps}
use jsm.Session.{session_id_from_request}
use jsm.Accounts.{Deps, Inputs, Stores, authenticate, change_password, sign_up, logout, me}
use jsm.Accounts.Email.{normalize_email}
use jsm.Applications
use jsm.Applications.{Parsers}
use jsm.Handlers.{
  Wire, ApplicationService, list_handler, get_handler, create_handler, update_handler,
  delete_handler, me_handler, health_handler,
}
use jsm.Handlers.Auth.{
  Authenticator, AuthWire, authenticate_handler, reset_password_handler, sign_up_handler,
  logout_handler,
}
use jsm.Handlers.Routes.{Endpoints, new_router}

-- What the server is built from.
pub record Parts : Type 1 where
  pub deps : Deps
  pub apps : Apps
  pub parse_url : Bytes → Option Url
  pub unmarshal_time : Bytes → Option ℕ
  pub unmarshal_compensation : Bytes → Option CompensationInfo
  pub net : NetIp
  pub resolver : Resolver net
  pub sum256 : Bytes → Bytes
  pub policy : Policy
  pub store : Store
  pub wire : Wire
  pub unmarshal_log_in : Bytes → Result LogInRequest
  pub unmarshal_change_password : Bytes → Result ChangePasswordRequest
  pub unmarshal_sign_up : Bytes → Result SignUpRequest
  -- The answers of the two pings.
  pub ping_mongo : Option AppError
  pub ping_redis : Option AppError

module _ (p : Parts) where
  open p use {deps, apps, store}

  -- All that is stored: users and sessions, applications, counters.
  pub record World : Type 0 where
    pub stores : Stores deps
    pub applications : apps.State
    pub counters : store.State

  abbrev pub parsers : Parsers
  parsers = record {
    parse_url = p.parse_url;
    object_id_from_hex = deps.object_id_from_hex;
    unmarshal_time = p.unmarshal_time;
    unmarshal_compensation = p.unmarshal_compensation;
  }

  abbrev with_stores : {A : Type 0} → World → A × Stores deps → A × World
  with_stores w (answer, st) = (answer, record w { stores = st })

  abbrev with_applications : {A : Type 0} → World → A × apps.State → A × World
  with_applications w (answer, st) = (answer, record w { applications = st })

  abbrev with_counters : {A : Type 0} → World → A × store.State → A × World
  with_counters w (answer, st) = (answer, record w { counters = st })

  abbrev pub auth_wire : AuthWire
  auth_wire = record {
    unmarshal_log_in = p.unmarshal_log_in;
    unmarshal_change_password = p.unmarshal_change_password;
    unmarshal_sign_up = p.unmarshal_sign_up;
    session_id = session_id_from_request deps.sm;
    normalize_email = normalize_email deps.unicode_lower;
  }

  module _ (io : Inputs) where
    abbrev pub authenticator : Authenticator World
    authenticator = record {
      authenticate =
          λ email password w. with_stores w (authenticate deps io email password w.stores);
      change_password = λ user_id session_id req w.
          with_stores w (change_password deps io user_id session_id req w.stores);
      create_user = λ req w. with_stores w (sign_up deps io req w.stores);
      logout = λ session_id w. with_stores w (logout deps io session_id w.stores);
    }

    abbrev pub application_service : ApplicationService World
    application_service = record {
      create = λ user_id req w.
          with_applications w
            (Applications.create parsers apps io.new_id io.now user_id req w.applications);
      get = λ user_id id w. Applications.get parsers apps user_id id w.applications;
      list = λ user_id query w. Applications.list parsers apps user_id query w.applications;
      update = λ user_id id req w.
          with_applications w
            (Applications.update parsers apps io.now user_id id req w.applications);
      delete = λ user_id id w.
          with_applications w (Applications.delete parsers apps user_id id w.applications);
    }

    abbrev pub counters_guard : Guard store.State
    counters_guard = new_guard p.net p.sum256 p.policy store p.resolver io.now

    abbrev pub guard : Guard World
    guard = record {
      allow_request =
          λ r scope keys w. with_counters w (counters_guard.allow_request r scope keys w.counters);
      reset_request = λ r scope keys w. record w {
        counters = counters_guard.reset_request r scope keys w.counters;
      };
    }

    abbrev pub endpoints : Endpoints World
    endpoints = record {
      health = λ r w. (health_handler p.ping_mongo p.ping_redis, w);
      login = authenticate_handler auth_wire authenticator guard;
      signup = sign_up_handler auth_wire authenticator guard;
      logout = logout_handler auth_wire authenticator guard;
      me = me_handler (λ user_id w. me deps user_id w.stores);
      reset_password = reset_password_handler auth_wire authenticator guard;
      list = list_handler p.wire application_service;
      create = create_handler p.wire application_service;
      get = get_handler p.wire application_service;
      update = update_handler p.wire application_service;
      delete = delete_handler p.wire application_service;
    }

    abbrev pub sessions_of : World → deps.rdb.State
    sessions_of w = w.stores.sessions

    unfoldable pub serve : Request → World → Response × World
    serve = new_router deps.hmac_sha256 deps.rdb deps.sm sessions_of endpoints io.nonce
