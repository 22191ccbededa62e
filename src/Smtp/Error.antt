-- ===== src/Smtp/Error.antt =====
-- pkg/mailer/smtp/error.go: the wrapped errors of a delivery.
use ofm_mail_service.Errors.{Err, prefixed}
use ofm_mail_service.Effect.{Result, ok, err}

-- WrapDialSMTPError
abbrev pub wrap_dial_smtp_error : Err → Err
wrap_dial_smtp_error = prefixed "dial smtp"

-- WrapCreateSMTPClientError
abbrev pub wrap_create_smtp_client_error : Err → Err
wrap_create_smtp_client_error = prefixed "create smtp client"

-- WrapStartTLSError
abbrev pub wrap_start_tls_error : Err → Err
wrap_start_tls_error = prefixed "starttls smtp client"

-- WrapSMTPAuthError
abbrev pub wrap_smtp_auth_error : Err → Err
wrap_smtp_auth_error = prefixed "smtp auth"

-- WrapSMTPMailFromError
abbrev pub wrap_smtp_mail_from_error : Err → Err
wrap_smtp_mail_from_error = prefixed "smtp mail from"

-- WrapSMTPRcptToError
abbrev pub wrap_smtp_rcpt_to_error : Err → Err
wrap_smtp_rcpt_to_error = prefixed "smtp rcpt to"

-- WrapSMTPDataError
abbrev pub wrap_smtp_data_error : Err → Err
wrap_smtp_data_error = prefixed "smtp data"

-- WrapSMTPWriteError
abbrev pub wrap_smtp_write_error : Err → Err
wrap_smtp_write_error = prefixed "smtp write message"

-- `if err != nil { return Wrap…(err) }`
abbrev pub wrap {ℓ} : {A : Type ℓ} → (Err → Err) → Result A → Result A
wrap f (ok a) = ok a
wrap f (err e) = err (f e)
