-- ===== src/Mailer.antt =====
-- backend/internal/common/mailer/mailer.go, which the server does not call yet. The text that
-- LogMailer prints for a message is left out.
use jsm.Common.{
  ◌≡◌, refl, ◌⊎◌, inl, inr, Option, none, some, List, [], ◌∷◌, ◌++◌, arith, Option-cases, Bytes,
}
use jsm.Metrics.{AppError}

pub record Message : Type 0 where
  pub to : Bytes
  pub subject : Bytes
  pub body : Bytes

-- A mailer over the state `S`.
pub record Mailer (S : Type 0) : Type 0 where
  pub send : Message → S → Option AppError × S

-- What is logged, in order.
abbrev pub log_mailer : Mailer (List Message)
log_mailer = record { send = λ msg logged. (none, logged ++ msg ∷ []) }

abbrev pub discard_mailer : {S : Type 0} → Mailer S
discard_mailer = record { send = λ msg st. (none, st) }

pub record Recording : Type 0 where
  pub sent : List Message
  pub failure : Option AppError

abbrev pub new_recording_mailer : Recording
new_recording_mailer = record { sent = []; failure = none }

abbrev recorded : Message → Recording → Option AppError × Recording
recorded msg m = elim m.failure [
  | some e ↦ (some e, m)
  | none ↦ (none, record m { sent = m.sent ++ msg ∷ [] })
]

abbrev pub recording_mailer : Mailer Recording
recording_mailer = record { send = recorded }

-- Last
unfoldable pub last_of : List Message → Option Message
last_of [] = none
last_of (m ∷ []) = some m
last_of (m ∷ n ∷ ms) = last_of (n ∷ ms)

last_of-append : (ms : List Message) (m : Message) → last_of (ms ++ m ∷ []) ≡ some m
unfolding last_of
last_of-append [] m = refl
last_of-append (x ∷ []) m = refl
last_of-append (x ∷ y ∷ ms) m = last_of-append (y ∷ ms) m

-- A recording mailer fails as it is told to, and keeps nothing then; otherwise the message is the
-- last one that it was asked to send.
recording_mailer-last_of :
    (msg : Message) (m : Recording)
    → ((e : AppError) × (m.failure ≡ some e) × (recording_mailer.send msg m ≡ (some e, m)))
      ⊎ (((recording_mailer.send msg m).0 ≡ none)
          × (last_of (recording_mailer.send msg m).1.sent ≡ some msg))
recording_mailer-last_of msg m = elim (Option-cases m.failure) [
  | inl e ↦ inr (rw e refl, rw e (last_of-append m.sent msg))
  | inr (x, e) ↦ inl (x, e, ground arith)
]
