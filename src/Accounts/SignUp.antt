-- ===== src/Accounts/SignUp.antt =====
-- CreateUser of backend/internal/service/auth.go.
use jsm.Common.{
  ◌≡◌, ap, ◌∙◌, ◌≢◌, inl, inr, not, none, [], arith, Bool-cases, Option-cases, Bytes, same,
  same_iff,
}
use jsm.Metrics.{ok, Result-cases}
use jsm.Domain.{User, SignUpRequest}
use jsm.Password.{hash_password, enforce_password_complexity}
use jsm.Sanitise.{clean}
use jsm.Accounts.{Deps, Inputs, prepare_user, max_user_name}
use jsm.Text.{trim_space, to_lower}
use jsm.Text.Trim.{trim_space_twice}
use jsm.Accounts.Email.{Mail, normalize_email, validate_email}

module _ (d : Deps) (io : Inputs) (req : SignUpRequest) where
  -- What the store may insert.
  pub record IsNewUser (user : User) : Type 0 where
    pub address : validate_email d.mail req.email ≡ ok user.email
    pub login_form : user.email_normalized ≡ normalize_email d.unicode_lower user.email
    pub named : user.name ≢ []
    pub complex : enforce_password_complexity d.tables req.password ≡ none
    pub hashed : hash_password d.bcrypt io.salt req.password ≡ ok user.password_hash
    pub verification : user.email_verified ≡ not d.require_email_verification

  -- A user that a sign-up prepares has a valid address, stored in the form that a login looks up
  -- too, a name, and the hash of a password that the policy accepts, and counts as verified
  -- exactly if no verification is required.
  pub prepare_user-IsNewUser : {user : User} → prepare_user d io req ≡ ok user → IsNewUser user
  unfolding prepare_user
  prepare_user-IsNewUser {user = user} e =
      let name = clean req.name max_user_name in
      elim (Result-cases (validate_email d.mail req.email)) [
        | inr (x, a) ↦ absurd (ground arith)
        | inl (address, a) ↦ elim (Bool-cases (same name [])) [
          | inl b ↦ absurd (ground arith)
          | inr b ↦ elim (Option-cases (enforce_password_complexity d.tables req.password)) [
            | inr (x, c) ↦ absurd (ground arith)
            | inl c ↦ elim (Result-cases (hash_password d.bcrypt io.salt req.password)) [
              | inr (x, h) ↦ absurd (ground arith)
              | inl (hash, h) ↦ record {
                address = ground arith;
                login_form = ground arith;
                named = λ q. ground (arith, same_iff name []);
                complex = c;
                hashed = ground arith;
                verification = ground arith;
              }
            ]
          ]
        ]
      ]

validate_email_trimmed :
    (mail : Mail) (input : Bytes) {email : Bytes}
    → validate_email mail input ≡ ok email
    → email ≡ trim_space input
unfolding validate_email
validate_email_trimmed mail input e = ground (arith, e)

normalize_trimmed :
    (lower : Bytes → Bytes) (s : Bytes)
    → normalize_email lower (trim_space s) ≡ normalize_email lower s
unfolding normalize_email
normalize_trimmed lower s = ap (to_lower lower) (trim_space_twice s)

-- The stored form of a new user's address is that of the address given.
pub new_user_address :
    (d : Deps) (io : Inputs) (req : SignUpRequest) {user : User}
    → IsNewUser d io req user
    → user.email_normalized ≡ normalize_email d.unicode_lower req.email
new_user_address d io req new =
    new.login_form
    ∙ ap (normalize_email d.unicode_lower) (validate_email_trimmed d.mail req.email new.address)
    ∙ normalize_trimmed d.unicode_lower req.email
