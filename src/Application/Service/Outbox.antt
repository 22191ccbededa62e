-- ===== src/Application/Service/Outbox.antt =====
-- A sender that keeps the mails it was handed, the last one first, and answers as it likes: any
-- transport, seen from the service.
use ofm_mail_service.Prelude.{List, ◌∷◌, Option}
use ofm_mail_service.Errors.{Err}
use ofm_mail_service.Effect.{check}
use ofm_mail_service.Domain.{Email}
use ofm_mail_service.Application.Service.{MailSender}

abbrev pub Outbox : Type 0
Outbox = List Email

abbrev pub recording : (Outbox → Option Err) → MailSender Outbox
recording answer email box = (check (answer (email ∷ box)), email ∷ box)
