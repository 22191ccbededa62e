-- ===== src/Smtp/Reading.antt =====
-- A reader of the messages that pkg/mailer/smtp/smtp.go `buildMessage` makes: header lines, which end
-- at LF or CRLF, up to an empty line, and then the body.
mod Tests
use Prim.Native.Char.{Char}
use Prim.Native.String.{◌++◌}
use text.Mathlib.TextLemmas.{append_assoc, nil-append, cons-append, cons-ne-nil}
use ofm_mail_service.Prelude.{
  ◌≢◌, not, Bool, Bool-cases, inl, inr, eq_iff, ℕ, zero, suc, ◌+◌, ◌≡◌, refl, sym, ap, ◌∙◌, String,
  List, [], ◌∷◌, false, Option, none, some, ◌==◌, All, length, arith, if◌then◌else◌,
}
use ofm_mail_service.Domain.{Email}
use ofm_mail_service.Smtp.Config.{SmtpSender, build_message, headers, join_lines, crlf}
use ofm_mail_service.Smtp.Lines.{has_break, break_line, break_line-crlf, IsLine, named-IsLine}

abbrev with_line : String → Option (List String × String) → Option (List String × String)
with_line line (some (lines, body)) = some (line ∷ lines, body)
with_line line none = none

-- the lines up to the first empty one, as many as the fuel at most, and the text behind it
module _ (read : String → Option (List String × String)) where
  read_on : Option (String × String) → Option (List String × String)
  read_on none = none
  read_on (some (line, rest)) =
      let later = read rest in if line == "" then some ([], rest) else with_line line later

pub read_message : ℕ → String → Option (List String × String)
unfolding read_on
read_message zero text = none
read_message (suc fuel) text = read_on (read_message fuel) (break_line text)

-- a header block and a body
abbrev text_of : List String → String → String
text_of lines body = join_lines lines ++ crlf ++ crlf ++ body

read_line :
    (fuel : ℕ) (line rest : String)
    → IsLine line
    → read_message (suc fuel) (line ++ crlf ++ rest) ≡ with_line line (read_message fuel rest)
unfolding read_message read_on
read_line fuel line rest (full, plain) = rw (break_line-crlf line rest plain) (rw full refl)

read_end : (fuel : ℕ) (body : String) → read_message (suc fuel) (crlf ++ body) ≡ some ([], body)
unfolding read_message read_on has_break
read_end fuel body =
    ap (read_message (suc fuel)) (sym (nil-append (crlf ++ body)))
    ∙ ap (read_on (read_message fuel)) (break_line-crlf "" body refl)

-- a round for each line and one for the empty line, at least
abbrev enough : List String → ℕ → ℕ
enough [] fuel = suc fuel
enough (line ∷ lines) fuel = suc (enough lines fuel)

read_lines :
    (line : String) (lines : List String) (body : String) (fuel : ℕ)
    → All IsLine (line ∷ lines)
    → read_message (enough (line ∷ lines) fuel) (text_of (line ∷ lines) body)
      ≡ some (line ∷ lines, body)
unfolding join_lines
read_lines line [] body fuel (is_line, _) =
    read_line (suc fuel) line (crlf ++ body) is_line ∙ ap (with_line line) (read_end fuel body)
read_lines line (next ∷ lines) body fuel (is_line, rest) =
    ap (read_message (enough (line ∷ next ∷ lines) fuel)) (
      append_assoc line (crlf ++ join_lines (next ∷ lines)) (crlf ++ crlf ++ body)
      ∙ ap (λ t. line ++ t) (append_assoc crlf (join_lines (next ∷ lines)) (crlf ++ crlf ++ body)))
    ∙ read_line (enough (next ∷ lines) fuel) line (text_of (next ∷ lines) body) is_line
    ∙ ap (with_line line) (read_lines next lines body fuel rest)

-- Where the sender's name and address, the recipient and the subject have neither a carriage return
-- nor a line feed, a reader of the message, for which a line ends at LF or CRLF, gets the sender,
-- the recipient and the subject behind the names of their headers, the two MIME headers, no other
-- header, and the body, whatever the body is.
pub read_message-build_message :
    (s : SmtpSender) (msg : Email) (fuel : ℕ)
    → has_break s.from ≡ false
    → has_break msg.to ≡ false
    → has_break msg.subject ≡ false
    → read_message (6 + fuel) (build_message s msg)
      ≡ some (
        ("From: " ++ s.from)
            ∷ ("To: " ++ msg.to)
            ∷ ("Subject: " ++ msg.subject)
            ∷ "MIME-Version: 1.0"
            ∷ "Content-Type: text/html; charset=\"UTF-8\""
            ∷ [],
        msg.html_body,
      )
unfolding build_message headers has_break
read_message-build_message s msg fuel from to subject =
    let six : 6 + fuel ≡ suc (suc (suc (suc (suc (suc fuel))))) = omega arith in
    rw six (
      read_lines ("From: " ++ s.from)
        (("To: " ++ msg.to)
          ∷ ("Subject: " ++ msg.subject)
          ∷ "MIME-Version: 1.0"
          ∷ "Content-Type: text/html; charset=\"UTF-8\""
          ∷ [])
        msg.html_body fuel
        (
          named-IsLine _ _ s.from refl from,
          (
            named-IsLine _ _ msg.to refl to,
            (named-IsLine _ _ msg.subject refl subject, ((refl, refl), ((refl, refl), tt))),
          ),
        ))
