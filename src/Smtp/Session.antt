-- ===== src/Smtp/Session.antt =====
-- pkg/mailer/smtp/smtp.go `send`, `newClient`, `authenticate` and `Send`. The log is left out.
pub mod Trace
pub mod Safety
pub mod Results
pub mod Breaking
mod Tests
use ofm_mail_service.Prelude.{
  String, Bool, true, false, not, ◌==◌, if◌then◌else◌, Option, none, some,
}
use ofm_mail_service.Errors.{Err, DomainError, domain, sentinel, prefixed, suffixed}
use ofm_mail_service.Errors.Message.{error_text}
use ofm_mail_service.Effect.{Result, ok, err, Eff, pure, reject_if, attempt, settle, ◌>>=◌, ◌>>◌}
use ofm_mail_service.Config.{SmtpConfig}
use ofm_mail_service.Domain.{Email}
use ofm_mail_service.Smtp.Error.{
  wrap, wrap_dial_smtp_error, wrap_create_smtp_client_error, wrap_start_tls_error,
  wrap_smtp_auth_error, wrap_smtp_mail_from_error, wrap_smtp_rcpt_to_error, wrap_smtp_data_error,
  wrap_smtp_write_error,
}
use ofm_mail_service.Smtp.Config.{SmtpSender, build_message, address}

-- tls.Config: the name that the certificate of the server is verified for
pub record TlsConfig : Type 0 where
  pub server_name : String

-- newTLSConfig
pub new_tls_config : String → TlsConfig
new_tls_config host = record { server_name = host }

-- The calls of crypto/tls, net and net/smtp, and of the writer that `Data` opens.
pub record Net (W : Type 0) : Type 0 where
  pub dial_tls : String → TlsConfig → Eff W (Unit {0})
  pub dial_tcp : String → Eff W (Unit {0})
  pub new_client : String → Eff W (Unit {0})
  pub start_tls : TlsConfig → Eff W (Unit {0})
  -- the user, the password and the host of `PlainAuth`
  pub auth : String → String → String → Eff W (Unit {0})
  pub mail : String → Eff W (Unit {0})
  pub rcpt : String → Eff W (Unit {0})
  pub open_data : Eff W (Unit {0})
  pub write : String → Eff W (Unit {0})
  pub close_writer : Eff W (Unit {0})
  pub quit : Eff W (Unit {0})
  pub close_client : Eff W (Unit {0})
  pub close_conn : Eff W (Unit {0})

-- fmt.Errorf("%w: %v", mail.ErrFailedToSendMail, err)
abbrev pub not_sent {ℓ} : {A : Type ℓ} → Result A → Result A
not_sent (ok a) = ok a
not_sent (err e) = err (suffixed (sentinel (domain DomainError.failed_to_send_mail)) (error_text e))

module _ {W : Type 0} (net : Net W) (s : SmtpSender) where
  abbrev wrapped : (Err → Err) → Eff W (Unit {0}) → Eff W (Unit {0})
  wrapped f m w = let (r, w') = m w in (wrap f r, w')

  abbrev failing : Eff W (Unit {0}) → Eff W (Unit {0})
  failing m w = let (r, w') = m w in (not_sent r, w')

  -- `conn.Close()` before an error is returned
  closing_on_error : Result (Unit {0}) → Eff W (Unit {0})
  closing_on_error (ok _) w = (ok tt, w)
  closing_on_error (err e) w = (err e, (net.close_conn w).1)

  -- an SMTP client on the open connection
  client_on : Eff W (Unit {0})
  unfolding closing_on_error
  client_on =
      attempt (wrapped wrap_create_smtp_client_error (net.new_client s.cfg.host)) closing_on_error

  secured : Eff W (Unit {0})
  unfolding closing_on_error new_tls_config
  secured =
      attempt (wrapped wrap_start_tls_error (net.start_tls (new_tls_config s.cfg.host)))
        closing_on_error

  -- newClient
  pub new_client : Eff W (Unit {0})
  unfolding client_on secured new_tls_config
  new_client =
      if s.cfg.mode == "tls"
      then (do
        wrapped wrap_dial_smtp_error (net.dial_tls (address s.cfg) (new_tls_config s.cfg.host))
        client_on)
      else (do
        wrapped wrap_dial_smtp_error (net.dial_tcp (address s.cfg))
        client_on
        if s.cfg.mode == "starttls" then secured else pure tt)

  authenticate : Eff W (Unit {0})
  authenticate =
      wrapped wrap_smtp_auth_error (net.auth s.cfg.sender_email s.cfg.password s.cfg.host)

  -- after `writer.Write`: the writer is closed on both paths
  written : Result (Unit {0}) → Eff W (Unit {0})
  written (err e) w = (wrap wrap_smtp_write_error (err e), (net.close_writer w).1)
  written (ok _) w = wrapped wrap_smtp_write_error net.close_writer w

  -- the commands on the client, up to `Quit`, whose error is only logged
  converse : Email → Eff W (Unit {0})
  unfolding authenticate
  converse msg = do
    failing authenticate
    failing (wrapped wrap_smtp_mail_from_error (net.mail s.from_addr))
    failing (wrapped wrap_smtp_rcpt_to_error (net.rcpt msg.to))
    failing (wrapped wrap_smtp_data_error net.open_data)
    failing (attempt (net.write (build_message s msg)) written)
    attempt net.quit (λ _. pure tt)

  -- the deferred `client.Close()` and `conn.Close()`
  hang_up : Result (Unit {0}) → Eff W (Unit {0})
  hang_up r w = (r, (net.close_conn (net.close_client w).1).1)

  connected : Email → Result (Unit {0}) → Eff W (Unit {0})
  connected msg (err e) w = (not_sent (err e), w)
  connected msg (ok _) w = attempt (converse msg) hang_up w

  pub send_once : (String → Bool) → Email → Eff W (Unit {0})
  send_once is_address msg =
      if is_address msg.to
      then attempt new_client (connected msg)
      else (λ w. (err (sentinel (domain DomainError.invalid_recipient_email)), w))

-- resilience.Breaker.Do, which decides whether, and how often, its function is called
abbrev pub Breaker : Type 1
Breaker = (W : Type 0) → Eff W (Unit {0}) → Eff W (Unit {0})

-- the variable `sendErr` stands beside the world
abbrev capture : {W : Type 0} → Eff W (Unit {0}) → Eff (W × Result (Unit {0})) (Unit {0})
capture m (w, _) = let (r, w') = m w in (r, (w', r))

abbrev captured : {W : Type 0} → Result (Unit {0}) × (W × Result (Unit {0})) → Result (Unit {0}) × W
captured (err e, (w, r)) = (err e, w)
captured (ok _, (w, r)) = (r, w)

module _ {W : Type 0} (breaker : Breaker) (net : Net W) (s : SmtpSender) where
  -- Send
  pub send : (String → Bool) → Email → Eff W (Unit {0})
  send is_address msg w =
      captured
        (breaker (W × Result (Unit {0})) (capture (send_once net s is_address msg)) (w, ok tt))
