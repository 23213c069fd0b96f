-- ===== src/Server/History.antt =====
-- The server as a transition system: requests one after another, each with what the clock, the
-- random sources and the ID generator give to it, and time that passes between them.
pub mod Storable
pub mod Untouched
pub mod Sessions
pub mod Logins
pub mod Passwords
use jsm.Common.{◌≡◌, ◌⊎◌, List, [], Bytes}
use mathlib.Core.Path.{subst}
use jsm.Http.{Request}
use jsm.Accounts.{Inputs}
use jsm.Server.{Parts, World, serve}

abbrev pub AnyRequest : (p : Parts) → Inputs → Request → World p → Type 0
AnyRequest p io r w = Unit

-- Time passes: keys in Redis run out, the sessions' and the counters'. `stored` is the hash under a
-- key.
pub record Elapses (p : Parts) (stored : p.deps.rdb.State → Bytes → List (Bytes × Bytes))
    (before after : World p) : Type 0 where
  pub accounts : after.stores.accounts ≡ before.stores.accounts
  pub applications : after.applications ≡ before.applications
  pub sessions :
      (key : Bytes)
      → (stored after.stores.sessions key ≡ stored before.stores.sessions key)
        ⊎ (stored after.stores.sessions key ≡ [])

-- `Ok` is what is known of each request and of what is stored when it comes.
module _ (p : Parts) (stored : p.deps.rdb.State → Bytes → List (Bytes × Bytes))
    (Ok : Inputs → Request → World p → Type 0) where
  -- The second world comes from the first one by serving such requests, over some time.
  pub data History : World p → World p → Type 0 where
    fresh : {w : World p} → History w w
    served :
        {w w₁ w₂ : World p} (io : Inputs) (r : Request)
        → History w w₁
        → Ok io r w₁
        → (serve p io r w₁).1 ≡ w₂
        → History w w₂
    elapsed : {w w₁ w₂ : World p} → History w w₁ → Elapses p stored w₁ w₂ → History w w₂

  -- What every such request and the time keep holds throughout.
  pub history-keeps :
      (P : World p → Type 0)
      → ((io : Inputs) (r : Request) (w : World p) → Ok io r w → P w → P (serve p io r w).1)
      → ((w w' : World p) → Elapses p stored w w' → P w → P w')
      → {w w' : World p} → History w w'
      → P w
      → P w'
  history-keeps P keeps lasts fresh h = h
  history-keeps P keeps lasts (served io r before ok e) h =
      subst P e (keeps io r _ ok (history-keeps P keeps lasts before h))
  history-keeps P keeps lasts (elapsed before e) h =
      lasts _ _ e (history-keeps P keeps lasts before h)

  -- One of the requests that a history serves is such that `E` holds of it, and of what goes with
  -- it and is stored when it comes.
  unfoldable pub Served :
      (Inputs → Request → World p → Type 0) → {w w' : World p} → History w w' → Type 0
  Served E fresh = ⊥
  Served E (served {w₁ = at} io r before ok e) = E io r at ⊎ Served E before
  Served E (elapsed before e) = Served E before
