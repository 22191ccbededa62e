-- ===== src/Fake.antt =====
-- pkg/mailer/fake/fake.go: a sender that discards every mail.
use ofm_mail_service.Effect.{Eff, pure}
use ofm_mail_service.Domain.{Email}

unfoldable pub discard : {W : Type 0} → Email → Eff W (Unit {0})
discard _ = pure tt
