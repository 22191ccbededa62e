-- ===== src/Nats/Reason.antt =====
-- nats/error_reason.go: the stable reason that a failure is reported with.
use ofm_mail_service.Prelude.{String, if◌then◌else◌}
use ofm_mail_service.Errors.{Err, DomainError, domain, is}
use ofm_mail_service.Application.Service.{is_domain_send_error}
use ofm_mail_service.Nats.Interfaces.{FailureReasonResolver}

unfoldable pub send_mail_failure_reason : Err → String
send_mail_failure_reason e =
    if is e (domain DomainError.invalid_recipient_email)
    then "invalid recipient email"
    else if is e (domain DomainError.invalid_message_type)
    then "invalid message type"
    else if is e (domain DomainError.template_not_found)
    then "mail template not found"
    else if is e (domain DomainError.template_subject_empty)
    then "mail template subject is empty"
    else if is e (domain DomainError.template_body_empty)
    then "mail template body is empty"
    else if is e (domain DomainError.failed_to_render_mail)
    then "failed to render mail template"
    else if is e (domain DomainError.failed_to_send_mail)
    then "failed to send mail"
    else if is_domain_send_error e
    then "failed to process mail command"
    else "internal mail delivery error"

abbrev pub new_domain_failure_reason_resolver : FailureReasonResolver
new_domain_failure_reason_resolver = record { send_mail_failure_reason = send_mail_failure_reason }
