-- ===== src/Smtp/Config.antt =====
-- pkg/mailer/smtp/smtp.go `New` and `buildMessage`.
use Prim.Native.String.{◌++◌}
use ofm_mail_service.Prelude.Decimal.{decimal}
use ofm_mail_service.Prelude.{
  String, List, [], ◌∷◌, not, ◌&&◌, Option, none, some, ◌==◌, trim_space, if◌then◌else◌, pos, leb_ℤ,
}
use ofm_mail_service.Errors.{SmtpError, smtp, sentinel}
use ofm_mail_service.Effect.{Result, ok, err}
use ofm_mail_service.Config.{SmtpConfig}
use ofm_mail_service.Domain.{Email}

pub record SmtpSender : Type 0 where
  pub cfg : SmtpConfig
  pub from : String
  pub from_addr : String

refuse : SmtpError → Result SmtpSender
refuse e = err (sentinel (smtp e))

-- `(&netmail.Address{Name: …, Address: …}).String()` is the parameter `address_text`.
unfoldable pub from_header : (String → String → String) → SmtpConfig → String
from_header address_text cfg =
    if trim_space cfg.from_name == ""
    then cfg.sender_email
    else address_text cfg.from_name cfg.sender_email

unfoldable pub new :
    (String → String → String) → {Log : Type 0} → SmtpConfig → Option Log → Result SmtpSender
unfolding refuse from_header
new address_text cfg log =
    if trim_space cfg.host == ""
    then refuse SmtpError.empty_host
    else if leb_ℤ cfg.port (pos 0)
    then refuse SmtpError.invalid_port
    else if trim_space cfg.sender_email == ""
    then refuse SmtpError.empty_sender_email
    else if trim_space cfg.password == ""
    then refuse SmtpError.empty_password
    else elim log [
      | none ↦ refuse SmtpError.nil_logger
      | some _ ↦
          if not (cfg.mode == "starttls") && not (cfg.mode == "tls")
          then refuse SmtpError.invalid_mode
          else ok (record {
            cfg = cfg;
            from = from_header address_text cfg;
            from_addr = cfg.sender_email;
          })
    ]

abbrev pub crlf : String
crlf = "\r\n"

-- strings.Join
unfoldable pub join_lines : List String → String
join_lines [] = ""
join_lines (line ∷ []) = line
join_lines (line ∷ more ∷ lines) = line ++ crlf ++ join_lines (more ∷ lines)

unfoldable pub headers : SmtpSender → Email → List String
headers s msg =
    ("From: " ++ s.from)
    ∷ ("To: " ++ msg.to)
    ∷ ("Subject: " ++ msg.subject)
    ∷ "MIME-Version: 1.0"
    ∷ "Content-Type: text/html; charset=\"UTF-8\""
    ∷ []

unfoldable pub build_message : SmtpSender → Email → String
unfolding join_lines headers
build_message s msg = join_lines (headers s msg) ++ crlf ++ crlf ++ msg.html_body

-- fmt.Sprintf("%s:%d", host, port)
unfoldable pub address : SmtpConfig → String
unfolding decimal
address cfg = cfg.host ++ ":" ++ decimal cfg.port
