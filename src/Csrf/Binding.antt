-- ===== src/Csrf/Binding.antt =====
-- What a token proves.
use jsm.Common.{
  ◌%◌, ◌≡◌, refl, ap, ◌∙◌, ◌≢◌, inl, inr, true, some, [], ◌∷◌, ◌++◌, arith, ◌==◌, if◌then◌else◌,
  Option-cases, length, All-append, Bytes, text, same, same_iff, same_refl, cut_last, Without,
  cut_last-append, cut_last_sound,
}
use jsm.Metrics.{ok}
use jsm.Csrf.{
  raw_url_encode, sign_csrf, mint_csrf_token, verify_csrf_token, verify_parts, bound_to, url_encode,
}

-- No digit is a separator.
raw_url_encode-Without :
    (s : Bytes) → Without b'.' (raw_url_encode s) × Without b'!' (raw_url_encode s)
unfolding raw_url_encode
raw_url_encode-Without [] = ground arith
raw_url_encode-Without (a ∷ []) = ground arith
raw_url_encode-Without (a ∷ b ∷ []) = ground arith
raw_url_encode-Without (a ∷ b ∷ c ∷ s) = ground (arith, raw_url_encode-Without s)

-- So a session ID, which url_encode makes, has no `!`.
pub url_encode-Without : (s : Bytes) → Without b'!' (url_encode s)
unfolding url_encode
url_encode-Without s =
    All-append (λ x. x ≢ b'!') (raw_url_encode s)
      (if length s % 3 == 1 then text "==" else if length s % 3 == 2 then text "=" else [])
      (raw_url_encode-Without s).1 (ground arith)

pub url_encode_nonempty : (s : Bytes) → s ≢ [] → url_encode s ≢ []
unfolding url_encode raw_url_encode
url_encode_nonempty [] h = absurd (h refl)
url_encode_nonempty (a ∷ []) h = λ e. ground arith
url_encode_nonempty (a ∷ b ∷ []) h = λ e. ground arith
url_encode_nonempty (a ∷ b ∷ c ∷ s) h = λ e. ground arith

module _ (hmac_sha256 : Bytes → Bytes → Bytes) (csrf_secret : Bytes) where
  verify_parts-some :
      (message presented : Bytes)
      → verify_parts hmac_sha256 csrf_secret
          (some (message, sign_csrf hmac_sha256 csrf_secret message))
          presented
        ≡ bound_to hmac_sha256 csrf_secret (cut_last b'!' message) presented
  unfolding verify_parts
  verify_parts-some message presented = rw (same_refl (sign_csrf hmac_sha256 csrf_secret message))

  -- A minted token verifies for the session that it was minted for and for no other, if that
  -- session's ID has no `!`.
  pub verify_csrf_token-mint_csrf_token :
      (nonce session_id presented token : Bytes)
      → Without b'!' session_id
      → mint_csrf_token hmac_sha256 csrf_secret (some nonce) session_id ≡ ok token
      → verify_csrf_token hmac_sha256 csrf_secret token presented ≡ same session_id presented
  unfolding verify_csrf_token mint_csrf_token sign_csrf bound_to
  verify_csrf_token-mint_csrf_token nonce session_id presented token h e =
      let message = raw_url_encode nonce ++ b'!' ∷ session_id in
      let sig = sign_csrf hmac_sha256 csrf_secret message in
      let minted : token ≡ message ++ b'.' ∷ sig = cc e in
      let no_dot = (raw_url_encode-Without (hmac_sha256 csrf_secret message)).0 in
      ap (λ t. verify_csrf_token hmac_sha256 csrf_secret t presented) minted
      ∙ ap (λ p. verify_parts hmac_sha256 csrf_secret p presented)
          (cut_last-append b'.' message sig no_dot)
      ∙ verify_parts-some message presented
      ∙ ap (λ p. bound_to hmac_sha256 csrf_secret p presented)
          (cut_last-append b'!' (raw_url_encode nonce) session_id h)

  -- A token that verifies is signed under the secret, over a message that ends in the session.
  pub verify_csrf_token_sound :
      (token session_id : Bytes)
      → verify_csrf_token hmac_sha256 csrf_secret token session_id ≡ true
      → (nonce : Bytes) × (token
          ≡ (nonce ++ b'!' ∷ session_id)
            ++ b'.' ∷ sign_csrf hmac_sha256 csrf_secret (nonce ++ b'!' ∷ session_id))
  unfolding verify_csrf_token verify_parts bound_to
  verify_csrf_token_sound token session_id e = elim (Option-cases (cut_last b'.' token)) [
    | inl q ↦ absurd (ground arith)
    | inr ((message, sig), q) ↦ elim (Option-cases (cut_last b'!' message)) [
      | inl p ↦ absurd (ground arith)
      | inr ((nonce, bound), p) ↦
          let signed : sig ≡ sign_csrf hmac_sha256 csrf_secret message =
            ground (arith, same_iff sig (sign_csrf hmac_sha256 csrf_secret message)) in
          let session : bound ≡ session_id = ground (arith, same_iff bound session_id) in
          let parts : message ≡ nonce ++ b'!' ∷ session_id =
            cc ((cut_last_sound b'!' message p).0, session) in
          (nonce, (cut_last_sound b'.' token q).0 ∙ rw (signed, parts))
    ]
  ]
