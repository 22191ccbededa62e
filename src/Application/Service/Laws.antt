-- ===== src/Application/Service/Laws.antt =====
-- What `Send` promises, whatever the registry renders and the transport answers.
use ofm_mail_service.Prelude.{
  ◌≡◌, inl, inr, refl, String, Bool, true, false, Option, none, some, ◌∷◌, arith, ◌==◌, trim_space,
  Bool-cases,
}
use ofm_mail_service.Errors.{Err, DomainError, domain, sentinel, is}
use ofm_mail_service.Effect.{Result, ok, err, lift, ◌>>=◌}
use ofm_mail_service.Domain.{Email, SendRequest, SendResult}
use ofm_mail_service.Application.Registry.{
  TemplateEngine, Registry, render, is_template_registry_error,
}
use ofm_mail_service.Application.Registry.Laws.{render_error, render-IsPresentable, IsPresentable}
use ofm_mail_service.Application.Service.{
  MailService, send, deliver, success_result, is_domain_send_error,
}
use ofm_mail_service.Application.Service.Outbox.{Outbox, recording}

-- Template errors are domain send errors.
pub is_domain_send_error_of_template :
    (e : Err) → is_template_registry_error e ≡ true → is_domain_send_error e ≡ true
unfolding is_template_registry_error is_domain_send_error
is_domain_send_error_of_template e h = ground arith

-- Why a request is refused, where `rendered` is what the registry makes of it.
pub data Refused {Data : Type 0} (is_address : String → Bool) (rendered : Result Email)
    (req : SendRequest Data) : Err → Type 0 where
  unnamed :
      trim_space req.message_type == "" ≡ true
      → Refused is_address rendered req (sentinel (domain DomainError.invalid_message_type))
  unaddressed :
      trim_space req.message_type == "" ≡ false
      → is_address req.to ≡ false
      → Refused is_address rendered req (sentinel (domain DomainError.invalid_recipient_email))
  unrendered :
      (x : Err)
      → trim_space req.message_type == "" ≡ false
      → is_address req.to ≡ true
      → rendered ≡ err x
      → Refused is_address rendered req x

-- What can become of a request, as a result and an outbox.
pub data Outcome {Data : Type 0} (is_address : String → Bool) (rendered : Result Email)
    (answer : Outbox → Option Err) (req : SendRequest Data) (box : Outbox)
    : Result SendResult → Outbox → Type 0 where
  -- refused before the transport is asked, with an error of the mail domain
  rejected :
      (x : Err)
      → Refused is_address rendered req x
      → is_domain_send_error x ≡ true
      → Outcome is_address rendered answer req box (err x) box
  -- handed to the transport, which failed with the error that is returned
  undelivered :
      (email : Email) (x : Err)
      → trim_space req.message_type == "" ≡ false
      → is_address req.to ≡ true
      → rendered ≡ ok email
      → IsPresentable (record email { to = req.to })
      → answer (record email { to = req.to } ∷ box) ≡ some x
      → Outcome is_address rendered answer req box (err x) (record email { to = req.to } ∷ box)
  -- handed to the transport, once, and accepted
  delivered :
      (email : Email)
      → trim_space req.message_type == "" ≡ false
      → is_address req.to ≡ true
      → rendered ≡ ok email
      → IsPresentable (record email { to = req.to })
      → answer (record email { to = req.to } ∷ box) ≡ none
      → Outcome is_address rendered answer req box
          (ok (success_result req))
          (record email { to = req.to } ∷ box)

module _ {Data : Type 0} (is_address : String → Bool) (engine : TemplateEngine Data)
    (r : Registry engine) (answer : Outbox → Option Err) (req : SendRequest Data)
    (box : Outbox) where
  abbrev service : MailService Outbox Data
  service = record { sender = recording answer; registry = render engine r }

  abbrev rendered : Result Email
  rendered = render engine r req.message_type req.payload

  deliver-Outcome :
      (email : Email) (o : Option Err)
      → trim_space req.message_type == "" ≡ false
      → is_address req.to ≡ true
      → rendered ≡ ok email
      → IsPresentable email
      → answer (record email { to = req.to } ∷ box) ≡ o
      → let (result, box') = deliver service req email box in
        Outcome is_address rendered answer req box result box'
  unfolding deliver
  deliver-Outcome email none named valid made p e =
      rw e (delivered email named valid made (assumption p) e)
  deliver-Outcome email (some x) named valid made p e =
      rw e (undelivered email x named valid made (assumption p) e)

  send_rendered :
      (o : Result Email)
      → trim_space req.message_type == "" ≡ false
      → is_address req.to ≡ true
      → rendered ≡ o
      → let (result, box') = (lift o >>= deliver service req) box in
        Outcome is_address rendered answer req box result box'
  send_rendered (ok email) named valid e =
      deliver-Outcome email _ named valid e (render-IsPresentable engine r _ _ email e) refl
  send_rendered (err x) named valid e =
      rejected x (unrendered x named valid e)
        (is_domain_send_error_of_template x (render_error engine r _ _ x e))

  pub send-Outcome :
      let (result, box') = send is_address service req box in
      Outcome is_address rendered answer req box result box'
  unfolding send is_domain_send_error is
  send-Outcome = elim (Bool-cases (trim_space req.message_type == "")) [
    | inl blank ↦ let why = unnamed blank in rw blank (rejected _ why refl)
    | inr named ↦ rw named (elim (Bool-cases (is_address req.to)) [
      | inl valid ↦ rw valid (send_rendered _ named valid refl)
      | inr invalid ↦ let why = unaddressed named invalid in rw invalid (rejected _ why refl)
    ])
  ]
