-- ===== src/Application/Service/Beside.antt =====
-- The service in a larger world: what it does there is what it does in the transport's own.
use ofm_mail_service.Prelude.{◌≡◌, refl, String, Bool, inl, inr, ◌==◌, trim_space, Bool-cases}
use ofm_mail_service.Effect.{Result, ok, err, lift, ◌>>=◌}
use ofm_mail_service.Domain.{Email, SendRequest}
use ofm_mail_service.Application.Service.{MailSender, MailService, Renderer, send, deliver}

-- A call in the first part of a world of two parts.
abbrev pub beside : {W X A : Type 0} → X → Result A × W → Result A × (W × X)
beside x (r, w) = (r, (w, x))

abbrev pub sender_beside : {W : Type 0} → (X : Type 0) → MailSender W → MailSender (W × X)
sender_beside X sender email (w, x) = beside x (sender email w)

module _ {W X Data : Type 0} (is_address : String → Bool) (sender : MailSender W)
    (registry : Renderer Data) (req : SendRequest Data) (w : W) (x : X) where
  abbrev small : MailService W Data
  small = record { sender = sender; registry = registry }

  abbrev large : MailService (W × X) Data
  large = record { sender = sender_beside X sender; registry = registry }

  answered :
      (r : Result (Unit {0}) × W) (email : Email)
      → sender (record email { to = req.to }) w ≡ r
      → deliver large req email (w, x) ≡ beside x (deliver small req email w)
  unfolding deliver
  answered (ok _, w') email e = rw e refl
  answered (err y, w') email e = rw e refl

  rendered :
      (o : Result Email)
      → (lift o >>= deliver large req) (w, x) ≡ beside x ((lift o >>= deliver small req) w)
  rendered (ok email) = answered _ email refl
  rendered (err y) = refl

  pub send-beside : send is_address large req (w, x) ≡ beside x (send is_address small req w)
  unfolding send
  send-beside = elim (Bool-cases (trim_space req.message_type == "")) [
    | inl blank ↦ rw blank refl
    | inr named ↦ rw named (elim (Bool-cases (is_address req.to)) [
      | inl valid ↦ rw valid (rendered (registry req.message_type req.payload))
      | inr invalid ↦ rw invalid refl
    ])
  ]
