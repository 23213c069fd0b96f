-- ===== src/Server/History/Untouched.antt =====
-- A user's applications, over any number of requests that others make.
use jsm.Common.{◌≡◌, refl, ap, ◌∙◌, Bool, List, keep, Bytes, same}
use jsm.Domain.{ObjectId, Application}
use jsm.Http.{Request}
use jsm.Mongo.{IsCollection}
use jsm.Mongo.Documents.{matches, apply_fields}
use jsm.Accounts.{Inputs}
use jsm.Server.{Parts, World}
use jsm.Server.Root.{SignedInAs}
use jsm.Server.Tenancy.{applications_of, Names, serve-applications_of}
use jsm.Server.History.{History, history-keeps}

-- `like` is the meaning of the regular expressions, `docs` the stored applications, and `v` a user.
module _ (p : Parts) (like : Bytes → Application → Bool) (docs : p.apps.State → List Application)
    (laws : IsCollection p.apps (matches like) apply_fields docs) (v : ObjectId)
    (stored : p.deps.rdb.State → Bytes → List (Bytes × Bytes)) where
  -- The request presents no session that is stored for the user.
  abbrev pub IsStranger : Inputs → Request → World p → Type 0
  IsStranger io r w =
      (user_id : Bytes) → SignedInAs p io r w user_id → ¬ Names p io like docs laws v user_id

  abbrev pub theirs : Inputs → World p → List Application
  theirs io w = applications_of p io like docs laws v w

  -- Requests to the server, however many and over any time, change the applications of a user only
  -- if one of them presents a session that is stored for that user when it comes.
  pub history-applications_of :
      (io : Inputs) {w w' : World p} → History p stored IsStranger w w' → theirs io w' ≡ theirs io w
  history-applications_of io {w} {w'} history =
      history-keeps p stored IsStranger (λ s. theirs io s ≡ theirs io w)
        (λ io' r s strangers h. serve-applications_of p io' like docs laws v r s strangers ∙ h)
        (λ s s' e h. ap (λ x. keep (λ a. same a.user_id v) (docs x)) e.applications ∙ h) history
        refl
