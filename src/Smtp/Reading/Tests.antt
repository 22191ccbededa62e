-- ===== src/Smtp/Reading/Tests.antt =====
-- A message whose body has lines of its own, and one whose subject breaks its line.
use ofm_mail_service.Prelude.{◌+◌, ◌≡◌, refl, [], ◌∷◌, some}
use ofm_mail_service.Config.Defaults.{default_smtp_config}
use ofm_mail_service.Domain.{Email}
use ofm_mail_service.Smtp.Config.{SmtpSender, build_message, headers, join_lines}
use ofm_mail_service.Smtp.Lines.{has_break, break_line}
use ofm_mail_service.Smtp.Reading.{read_message, read_on, read_message-build_message}

abbrev sender : SmtpSender
sender = record {
  cfg = default_smtp_config "ofm@example.org" "secret";
  from = "OFM <ofm@example.org>";
  from_addr = "ofm@example.org";
}

abbrev mail : Email
mail = record {
  to = "user@example.org";
  subject = "Welcome";
  html_body = "<p>Hello</p>\r\n\r\n<p>Bye</p>";
}

abbrev broken : Email
broken = record mail { subject = "Welcome\r\nBcc: all@example.org\r\n\r\n" }

-- The body of the message starts behind the subject.
break_out :
    read_message 6 (build_message sender broken)
    ≡ some (
      "From: OFM <ofm@example.org>" ∷ "To: user@example.org" ∷ "Subject: Welcome"
          ∷ "Bcc: all@example.org" ∷ [],
      "\r\nMIME-Version: 1.0\r\nContent-Type: text/html; charset=\"UTF-8\"\r\n\r\n<p>Hello</p>\r\n\r\n<p>Bye</p>",
    )
unfolding read_message read_on break_line build_message headers join_lines
break_out = refl

read_message-build_message_example :
    read_message (6 + 0) (build_message sender mail)
    ≡ some (
      "From: OFM <ofm@example.org>" ∷ "To: user@example.org" ∷ "Subject: Welcome"
          ∷ "MIME-Version: 1.0" ∷ "Content-Type: text/html; charset=\"UTF-8\"" ∷ [],
      "<p>Hello</p>\r\n\r\n<p>Bye</p>",
    )
unfolding has_break
read_message-build_message_example = read_message-build_message sender mail 0 refl refl refl
