-- ===== src/Server/History/Logins.antt =====
-- Where the sessions come from.
use jsm.Common.{◌≡◌, refl, sym, ap, ◌∙◌, ◌⊎◌, inl, inr, List, [], arith, Bytes, text}
use mathlib.Core.Path.{subst}
use jsm.Http.{Request}
use jsm.Session.{session_key, field}
use jsm.Session.Stored.{IsHashStore, get_user_id_from_request-owner_of}
use jsm.Accounts.{Inputs}
use jsm.Server.{Parts, World}
use jsm.Server.Root.{SignedInAs}
use jsm.Server.History.{AnyRequest, History, Served, fresh, served, elapsed}
use jsm.Server.History.Sessions.{owner, IsLogIn, serve-Effect}

module _ (p : Parts) (stored : p.deps.rdb.State → Bytes → List (Bytes × Bytes))
    (laws : IsHashStore p.deps.rdb stored) where
  -- One of the history's requests is a login that made the session for the user.
  abbrev pub HasLoggedIn :
      {w w' : World p} → History p stored (AnyRequest p) w w' → (sid user_id : Bytes) → Type 0
  HasLoggedIn history sid user_id =
      Served p stored (AnyRequest p) (λ io r at. IsLogIn p stored laws io r at sid user_id) history

  abbrev sid_owner : World p → Bytes → Bytes
  sid_owner w sid = owner p stored laws w.stores.sessions sid

  -- The session's user at the end.
  abbrev Origin : {w w' : World p} → History p stored (AnyRequest p) w w' → Bytes → Bytes → Type 0
  Origin {w} history sid user_id =
      (user_id ≡ sid_owner w sid) ⊎ ((user_id ≡ []) ⊎ HasLoggedIn history sid user_id)

  history-owner :
      (sid : Bytes) {w w' : World p} (history : History p stored (AnyRequest p) w w')
      → Origin history sid (sid_owner w' sid)
  unfolding field Served
  history-owner sid fresh = inl refl
  history-owner sid {w} {w'} (served {w₁ = w₁} io r before ok e) =
      let history = served {w₁ = w₁} io r before ok e in
      subst (λ s. Origin history sid (sid_owner s sid)) e
        (elim (serve-Effect p stored laws io r w₁ sid) [
          | inl f ↦ elim (history-owner sid before) [
            | inl g ↦ inl (f ∙ g)
            | inr (inl g) ↦ inr (inl (f ∙ g))
            | inr (inr h) ↦ inr (inr (inr (subst (HasLoggedIn before sid) (sym f) h)))
          ]
          | inr (inl f) ↦ inr (inl f)
          | inr (inr made) ↦ inr (inr (inl made))
        ])
  history-owner sid {w} {w'} (elapsed {w₁ = w₁} before e) = elim (e.sessions (session_key sid)) [
    | inr gone ↦ inr (inl (ap (λ h. field h (text "user_id")) gone))
    | inl f ↦
        let kept : sid_owner w' sid ≡ sid_owner w₁ sid = ap (λ h. field h (text "user_id")) f in
        elim (history-owner sid before) [
          | inl g ↦ inl (kept ∙ g)
          | inr (inl g) ↦ inr (inl (kept ∙ g))
          | inr (inr h) ↦ inr (inr (subst (HasLoggedIn before sid) (sym kept) h))
        ]
  ]

  -- Nobody is signed in without a login: if the server, after any requests and any time, takes a
  -- request for one of a user, then its session was stored for that user from the start, or one of
  -- these requests, when it came, was a login with that user's address and password in its body,
  -- and made the session.
  pub history-HasLoggedIn :
      {w w' : World p} (history : History p stored (AnyRequest p) w w') (io : Inputs) (r : Request)
      (user_id : Bytes) (signed : SignedInAs p io r w' user_id)
      → (owner p stored laws w.stores.sessions signed.session_id ≡ user_id)
        ⊎ HasLoggedIn history signed.session_id user_id
  history-HasLoggedIn {w} {w'} history io r user_id signed =
      let sid = signed.session_id in
      elim (get_user_id_from_request-owner_of p.deps.rdb stored laws p.deps.sm w'.stores.sessions
        sid) [
          | inr (x, e) ↦ absurd (ground (arith, e, signed.stored))
          | inl e ↦
              let users : owner p stored laws w'.stores.sessions sid ≡ user_id =
                ground (arith, e, signed.stored) in
              elim (history-owner sid history) [
                | inl f ↦ inl (sym f ∙ users)
                | inr (inl f) ↦ absurd (signed.nonempty_user (sym users ∙ f))
                | inr (inr h) ↦ inr (subst (HasLoggedIn history sid) users h)
              ]
        ]
