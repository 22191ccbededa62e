-- ===== src/Application/Service.antt =====
-- internal/application/service.go. The registry and the sender are interfaces of the service. Of
-- `net/mail.ParseAddress` the code asks only whether it fails: `is_address`. The log is left out.
pub mod Laws
pub mod Outbox
pub mod Beside
mod Tests
use ofm_mail_service.Prelude.{
  String, Bool, true, false, ◌||◌, not, Option, none, some, ◌==◌, trim_space,
}
use ofm_mail_service.Errors.{Err, ApplicationError, DomainError, application, domain, sentinel, is}
use ofm_mail_service.Effect.{Result, ok, err, Eff, pure, lift, reject_if, ◌>>=◌, ◌>>◌}
use ofm_mail_service.Domain.{Email, SendRequest, SendResult}

-- `MailSender` of type.go
abbrev pub MailSender : Type 0 → Type 0
MailSender W = Email → Eff W (Unit {0})

-- the method `Render` of `TemplateRegistry` of type.go
abbrev pub Renderer : Type 0 → Type 0
Renderer Data = String → Data → Result Email

pub record MailService (W Data : Type 0) : Type 0 where
  pub sender : MailSender W
  pub registry : Renderer Data

-- the fields that a successful result takes over from the request
unfoldable pub success_result : {Data : Type 0} → SendRequest Data → SendResult
success_result req = record {
  session_id = req.session_id;
  client_id = req.client_id;
  user_id = req.user_id;
  request_id = req.request_id;
  correlation_id = req.correlation_id;
  message_type = req.message_type;
  to = req.to;
  status = "success";
  error = "";
}

module _ {W Data : Type 0} where
  refuse : ApplicationError → Result (MailService W Data)
  refuse e = err (sentinel (application e))

  -- The interface values that `New` is given may be nil.
  unfoldable pub new :
      {Log : Type 0}
      → Option (MailSender W)
      → Option (Renderer Data)
      → Option Log
      → Result (MailService W Data)
  unfolding refuse
  new none registry log = refuse ApplicationError.nil_mail_sender
  new (some sender) none log = refuse ApplicationError.nil_template_registry
  new (some sender) (some registry) none = refuse ApplicationError.nil_logger
  new (some sender) (some registry) (some log) =
      ok (record { sender = sender; registry = registry })

  -- the part of `Send` behind the rendering
  deliver : MailService W Data → SendRequest Data → Email → Eff W SendResult
  deliver s req email = do s.sender (record email { to = req.to }); pure (success_result req)

  pub send : (String → Bool) → MailService W Data → SendRequest Data → Eff W SendResult
  send is_address s req = do
    reject_if (trim_space req.message_type == "")
        (sentinel (domain DomainError.invalid_message_type))
    reject_if (not (is_address req.to)) (sentinel (domain DomainError.invalid_recipient_email))
    email ← lift (s.registry req.message_type req.payload)
    deliver s req email

-- IsDomainSendError
unfoldable pub is_domain_send_error : Err → Bool
is_domain_send_error e =
    is e (domain DomainError.invalid_recipient_email)
    || is e (domain DomainError.invalid_message_type)
    || is e (domain DomainError.template_not_found)
    || is e (domain DomainError.template_subject_empty)
    || is e (domain DomainError.template_body_empty)
    || is e (domain DomainError.failed_to_render_mail)
    || is e (domain DomainError.failed_to_send_mail)
