-- ===== src/Smtp/Session/Results.antt =====
-- What the result of a delivery says of its course.
use ofm_mail_service.Prelude.{◌≡◌, String, Bool, ◌∷◌, Option, none, arith, ◌⊎◌, true, false}
use ofm_mail_service.Errors.{Err, DomainError, domain, sentinel, is}
use ofm_mail_service.Effect.{ok, err}
use ofm_mail_service.Domain.{Email}
use ofm_mail_service.Smtp.Config.{SmtpSender, build_message}
use ofm_mail_service.Smtp.Session.{new_client, written, converse, hang_up, connected, send_once}
use ofm_mail_service.Smtp.Session.Trace.{
  Command, close_conn, auth, mail, rcpt, write, open_data, close_writer, quit, close_client, call,
  Trace, net,
}

module _ (answer : Command → Trace → Option Err) (s : SmtpSender) (msg : Email) where
  -- What a server that took the message has answered, behind the opening of the connection.
  abbrev pub accepted : Trace → Trace
  accepted t =
      call close_writer none
      ∷ call (write (build_message s msg)) none
      ∷ call open_data none
      ∷ call (rcpt msg.to) none
      ∷ call (mail s.from_addr) none
      ∷ call (auth s.cfg.sender_email s.cfg.password s.cfg.host) none
      ∷ t

  converse_ok :
      (t : Trace)
      → (converse (net answer) s msg t).0 ≡ ok tt
      → (converse (net answer) s msg t).1 ≡ call quit (answer quit (accepted t)) ∷ accepted t
  unfolding converse written
  converse_ok t h = ground arith

  send_once_ok :
      (is_address : String → Bool) (t : Trace)
      → (send_once (net answer) s is_address msg t).0 ≡ ok tt
      → (is_address msg.to ≡ true)
        × ((converse (net answer) s msg (new_client (net answer) s t).1).0 ≡ ok tt)
        × (send_once (net answer) s is_address msg t
            ≡ hang_up
                (net answer)
                s
                (ok tt)
                (converse (net answer) s msg (new_client (net answer) s t).1).1)
  unfolding send_once connected hang_up
  send_once_ok is_address t h = ground arith

  -- A delivery that returns nil went to a valid address, and the server has accepted, on the
  -- connection that was opened, the login, the envelope with the sender and the recipient, and the
  -- whole message, in this order.
  pub send_once-accepted :
      (is_address : String → Bool) (t : Trace)
      → (send_once (net answer) s is_address msg t).0 ≡ ok tt
      → (is_address msg.to ≡ true)
        × ((r : Option Err) × (r' : Option Err) × (r'' : Option Err) × ((send_once
                (net answer)
                s
                is_address
                msg
                t).1
              ≡ call close_conn r
                ∷ call close_client r'
                ∷ call quit r''
                ∷ accepted (new_client (net answer) s t).1))
  unfolding hang_up
  send_once-accepted is_address t h =
      let (valid, talked, same) = send_once_ok is_address t h in
      let t₁ : Trace = accepted (new_client (net answer) s t).1 in
      let t₂ : Trace = call quit (answer quit t₁) ∷ t₁ in
      let t₃ : Trace = call close_client (answer close_client t₂) ∷ t₂ in
      (
        valid,
        (
          answer close_conn t₃,
          answer close_client t₂,
          answer quit t₁,
          rw (same, converse_ok (new_client (net answer) s t).1 talked),
        ),
      )

  -- A delivery that fails returns an error of the mail domain: a wrapped "failed to send mail", or
  -- "invalid recipient email" for an invalid address, before any call on the network.
  pub send_once_error :
      (is_address : String → Bool) (t : Trace) (e : Err)
      → (send_once (net answer) s is_address msg t).0 ≡ err e
      → (is e (domain DomainError.failed_to_send_mail) ≡ true)
        ⊎ ((e ≡ sentinel (domain DomainError.invalid_recipient_email))
            × (is_address msg.to ≡ false)
            × ((send_once (net answer) s is_address msg t).1 ≡ t))
  unfolding send_once connected hang_up converse is
  send_once_error is_address t e h = ground arith
