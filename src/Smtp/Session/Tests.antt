-- ===== src/Smtp/Session/Tests.antt =====
-- A mail that is delivered, and one whose login is refused.
use Prim.Native.String.{◌++◌}
use ofm_mail_service.Prelude.{
  ℕ, suc, ap, ◌≡◌, ◌⊎◌, refl, String, Bool, true, false, not, ◌==◌, Option, none, some, [], ◌∷◌,
  trim_space,
}
use ofm_mail_service.Errors.{Err, foreign, other, DomainError, domain, sentinel, suffixed, is}
use ofm_mail_service.Errors.Message.{error_text}
use ofm_mail_service.Effect.{Result, ok, err, Eff}
use ofm_mail_service.Config.{SmtpConfig}
use ofm_mail_service.Config.Defaults.{default_smtp_config}
use ofm_mail_service.Domain.{Email}
use ofm_mail_service.Smtp.Config.{SmtpSender, new, from_header, build_message, crlf, join_lines}
use ofm_mail_service.Smtp.Headers.{extended_headers, subject_adds_header}
use ofm_mail_service.Smtp.Session.{
  closing_on_error, client_on, secured, new_client, authenticate, written, converse, hang_up,
  connected, send_once, send, Breaker,
}
use ofm_mail_service.Smtp.Session.Trace.{
  Command, auth, quit, close_client, close_conn, call, Trace, net,
}
use ofm_mail_service.Smtp.Session.Breaking.{iterate, BreakerLaws, Sent, send_safe}
use ofm_mail_service.Smtp.Session.Results.{accepted, send_once-accepted, send_once_error}
use ofm_mail_service.Smtp.Session.Safety.{Leaves, IsDiscreet}

abbrev config : SmtpConfig
config = default_smtp_config "ofm@example.org" "secret"

abbrev address_text : String → String → String
address_text name address = "\"" ++ name ++ "\" <" ++ address ++ ">"

abbrev sender : SmtpSender
sender = record { cfg = config; from = "\"OFM\" <ofm@example.org>"; from_addr = "ofm@example.org" }

abbrev message : Email
message = record { to = "ann@example.org"; subject = "Welcome"; html_body = "<p>Hello</p>" }

abbrev is_address : String → Bool
is_address text = not (text == "")

abbrev agreeing : Command → Trace → Option Err
agreeing _ _ = none

abbrev refusing : Command → Trace → Option Err
refusing (auth user password host) _ = some (foreign other "535 refused")
refusing _ _ = none

is_new : new address_text config (some tt) ≡ ok sender
unfolding new from_header trim_space
is_new = refl

-- A breaker that tries once more after an error.
abbrev again : {W : Type 0} → Eff W (Unit {0}) → Result (Unit {0}) × W → Result (Unit {0}) × W
again f (ok _, w) = (ok tt, w)
again f (err e, w) = f w

abbrev breaker : Breaker
breaker W f w = again f (f w)

again_calls :
    {W : Type 0} (f : Eff W (Unit {0})) (w : W) (x : Result (Unit {0}) × W)
    → x ≡ f w
    → (n : ℕ) × ((again f x).1 ≡ iterate f (suc n) w)
again_calls f w (ok _, v) e = (0, ap (λ y. y.1) e)
again_calls f w (err x, v) e = (1, ap (λ y. (f y.1).1) e)

breaker_laws : BreakerLaws breaker
breaker_laws = record {
  calls = λ W f w. let (n, same) = again_calls f w (f w) refl in (suc n, same);
  nil_calls = λ W f w _. again_calls f w (f w) refl;
}

send_safe_example :
    let (r, t) = send breaker (net refusing) sender is_address message [] in
    IsDiscreet sender.cfg.host t
    × Leaves 0 [] t
    × Sent breaker_laws refusing sender is_address message r t
send_safe_example =
    send_safe breaker_laws refusing sender is_address message address_text config (some tt) is_new
      [] tt

is_sent : (send_once (net agreeing) sender is_address message []).0 ≡ ok tt
unfolding send_once connected hang_up converse written authenticate new_client client_on secured
    closing_on_error
is_sent = refl

send_once-accepted_example :
    (is_address message.to ≡ true)
    × ((r : Option Err) × (r' : Option Err) × (r'' : Option Err) × ((send_once
            (net agreeing)
            sender
            is_address
            message
            []).1
          ≡ call close_conn r
            ∷ call close_client r'
            ∷ call quit r''
            ∷ accepted agreeing sender message (new_client (net agreeing) sender []).1))
send_once-accepted_example = send_once-accepted agreeing sender message is_address [] is_sent

abbrev failure : Err
failure = suffixed (sentinel (domain DomainError.failed_to_send_mail)) "smtp auth: 535 refused"

is_refused : (send_once (net refusing) sender is_address message []).0 ≡ err failure
unfolding send_once connected hang_up converse written authenticate new_client client_on secured
    closing_on_error error_text
is_refused = refl

send_once_error_example :
    (is failure (domain DomainError.failed_to_send_mail) ≡ true)
    ⊎ ((failure ≡ sentinel (domain DomainError.invalid_recipient_email))
        × (is_address message.to ≡ false)
        × ((send_once (net refusing) sender is_address message []).1 ≡ []))
send_once_error_example = send_once_error refusing sender message is_address [] failure is_refused

subject_adds_header_example :
    build_message sender (record message { subject = "Welcome" ++ crlf ++ "Bcc: eve@example.org" })
    ≡ join_lines (extended_headers sender message "Bcc: eve@example.org")
      ++ crlf
      ++ crlf
      ++ message.html_body
subject_adds_header_example = subject_adds_header sender message "Bcc: eve@example.org"
