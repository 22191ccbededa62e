-- ===== src/Smtp/Headers.antt =====
-- The header block of a message that pkg/mailer/smtp/smtp.go `buildMessage` makes. A line break in
-- the subject is not encoded.
use Prim.Native.String.{◌++◌}
use text.Mathlib.TextLemmas.{append_assoc}
use ofm_mail_service.Prelude.{◌≡◌, String, List, [], ◌∷◌}
use ofm_mail_service.Domain.{Email}
use ofm_mail_service.Smtp.Config.{SmtpSender, build_message, join_lines, crlf}

-- The header block with one more header behind the subject.
abbrev pub extended_headers : SmtpSender → Email → String → List String
extended_headers s msg extra =
    ("From: " ++ s.from)
    ∷ ("To: " ++ msg.to)
    ∷ ("Subject: " ++ msg.subject)
    ∷ extra
    ∷ "MIME-Version: 1.0"
    ∷ "Content-Type: text/html; charset=\"UTF-8\""
    ∷ []

-- A subject with a line break in it puts what follows the break into the message as a header line
-- of its own.
pub subject_adds_header :
    (s : SmtpSender) (msg : Email) (extra : String)
    → build_message s (record msg { subject = msg.subject ++ crlf ++ extra })
      ≡ join_lines (extended_headers s msg extra) ++ crlf ++ crlf ++ msg.html_body
unfolding build_message
subject_adds_header s msg extra = simp append_assoc
