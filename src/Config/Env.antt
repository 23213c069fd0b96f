-- ===== src/Config/Env.antt =====
-- loadDotEnvIfPresent of backend/internal/config/config.go.
use jsm.Common.{
  ◌≡◌, inl, inr, Option, none, some, List, [], ◌∷◌, arith, Option-cases, Bytes, same_iff, cut,
}
use jsm.Config.{Environment, lookup_env, load_dot_env, load_line, set_default, trim_space}

set_default-keeps :
    (env : Environment) (entry : Option (Bytes × Bytes)) (key : Bytes) {v : Bytes}
    → lookup_env env key ≡ some v
    → lookup_env (set_default env entry) key ≡ some v
unfolding set_default lookup_env
set_default-keeps env none key e = e
set_default-keeps env (some (k, w)) key e = elim (Option-cases (lookup_env env (trim_space k))) [
  | inr (x, f) ↦ ground arith
  | inl f ↦ ground (arith, same_iff (trim_space k) key)
]

load_line-keeps :
    (env : Environment) (line key : Bytes) {v : Bytes}
    → lookup_env env key ≡ some v
    → lookup_env (load_line env line) key ≡ some v
unfolding load_line
load_line-keeps env line key e =
    ground (arith, set_default-keeps env (cut b'=' (trim_space line)) key e)

-- A variable that the process has keeps its value, whatever the .env file says.
pub load_dot_env_keeps :
    (env : Environment) (lines : List Bytes) (key : Bytes) {v : Bytes}
    → lookup_env env key ≡ some v
    → lookup_env (load_dot_env env lines) key ≡ some v
unfolding load_dot_env
load_dot_env_keeps env [] key e = e
load_dot_env_keeps env (line ∷ lines) key e =
    load_dot_env_keeps (load_line env line) lines key (load_line-keeps env line key e)
