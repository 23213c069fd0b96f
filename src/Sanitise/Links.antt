-- ===== src/Sanitise/Links.antt =====
-- Which links are stored.
use jsm.Common.{
  ◌≤◌, ◌≡◌, ◌≢◌, ◌⊎◌, inl, inr, Option, some, [], arith, Bool-cases, Option-cases, length, Bytes,
  text, same, same_iff,
}
use jsm.Metrics.{ok}
use jsm.Text.{trim_space}
use jsm.Sanitise.{Url, validate_job_link}

-- A stored link is what was sent, trimmed; it is empty, or has at most 2000 bytes, a host, and the
-- scheme http or https.
pub validate_job_link_sound :
    (parse_url : Bytes → Option Url) (raw link : Bytes)
    → validate_job_link parse_url raw ≡ ok link
    → (link ≡ trim_space raw)
      × ((link ≡ [])
          ⊎ ((url : Url) × (parse_url link ≡ some url)
              × (length link ≤ 2000)
              × (url.host ≢ [])
              × ((url.scheme ≡ text "http") ⊎ (url.scheme ≡ text "https"))))
unfolding validate_job_link
validate_job_link_sound parse_url raw link e =
    let s = trim_space raw in
    elim (Bool-cases (same s [])) [
      | inl empty ↦ ground (arith, same_iff s [])
      | inr some_bytes ↦ elim (Option-cases (parse_url s)) [
        | inl bad ↦ absurd (ground arith)
        | inr (url, parsed) ↦
            let link_eq : link ≡ s = ground arith in
            (
              link_eq,
              inr (
                url,
                rw link_eq parsed,
                ground arith,
                ground (arith, same_iff url.host []),
                ground
                    (arith, same_iff url.scheme (text "http"), same_iff url.scheme (text "https")),
              ),
            )
      ]
    ]
