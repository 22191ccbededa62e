-- ===== src/Fx/Transport.antt =====
-- internal/fx/service.go `ProvideMailSender`: the choice of the transport.
mod Tests
use ofm_mail_service.Prelude.{
  ◌≡◌, ◌⊎◌, inl, inr, refl, sym, String, Bool, true, false, ◌||◌, ◌==◌, if◌then◌else◌, Option,
  Bool-cases, eq_iff, arith,
}
use ofm_mail_service.Errors.{Err}
use ofm_mail_service.Effect.{Result, ok, err, bind_result}
use ofm_mail_service.Config.{SmtpConfig}
use ofm_mail_service.Domain.{Email}
use ofm_mail_service.Application.Service.{MailSender}
use ofm_mail_service.Fake.{discard}
use ofm_mail_service.Smtp.Config.{SmtpSender, new}
use ofm_mail_service.Smtp.Session.Safety.{UsesTls, new-UsesTls}
use ofm_mail_service.Smtp.Session.{Breaker, Net, send}

ok_injective {ℓ} : {A : Type ℓ} {a b : A} → Path (Result A) (ok a) (ok b) → a ≡ b
ok_injective h = cc

module _ {W : Type 0} (address_text : String → String → String) (is_address : String → Bool)
    (breaker : Breaker) (net : Net W) where
  abbrev sending : SmtpSender → Result (MailSender W)
  sending s = ok (send breaker net s is_address)

  unfoldable pub provide_mail_sender :
      {Log : Type 0} → SmtpConfig → Option Log → Result (MailSender W)
  provide_mail_sender cfg log =
      if (cfg.mode == "fake") || (cfg.mode == "discard")
      then ok discard
      else bind_result (new address_text cfg log) sending

  built :
      (o : Result SmtpSender) (sender : MailSender W)
      → bind_result o sending ≡ ok sender
      → (s : SmtpSender) × (o ≡ ok s) × (send breaker net s is_address ≡ sender)
  built (ok s) sender h = (s, refl, cc)
  built (err e) sender h = cc

  -- A sender that the process gets is the one that discards every mail, where the mode says so, or
  -- the SMTP sender that `New` returned, whose mode is "tls" or "starttls".
  pub provide_mail_sender_encrypts :
      {Log : Type 0} (cfg : SmtpConfig) (log : Option Log) (sender : MailSender W)
      → provide_mail_sender cfg log ≡ ok sender
      → (((cfg.mode ≡ "fake") ⊎ (cfg.mode ≡ "discard")) × (sender ≡ discard))
        ⊎ ((s : SmtpSender) × (new address_text cfg log ≡ ok s)
            × UsesTls s
            × (send breaker net s is_address ≡ sender))
  unfolding provide_mail_sender
  provide_mail_sender_encrypts cfg log sender h =
      elim (Bool-cases ((cfg.mode == "fake") || (cfg.mode == "discard"))) [
        | inl fake ↦ inl (
          ground (arith, eq_iff cfg.mode "fake", eq_iff cfg.mode "discard"),
          sym (ok_injective (rw fake at h)),
        )
        | inr real ↦
            let (s, made, same) = built (new address_text cfg log) sender (rw real at h) in
            inr (s, made, new-UsesTls address_text cfg log s made, same)
      ]
