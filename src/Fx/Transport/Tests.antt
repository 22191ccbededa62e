-- ===== src/Fx/Transport/Tests.antt =====
-- The transport of a process in the mode "fake".
use ofm_mail_service.Prelude.{◌≡◌, refl, String, Bool, true, some, none}
use ofm_mail_service.Effect.{ok}
use ofm_mail_service.Config.{SmtpConfig}
use ofm_mail_service.Config.Defaults.{default_smtp_config}
use ofm_mail_service.Fake.{discard}
use ofm_mail_service.Fx.Transport.{provide_mail_sender}
use ofm_mail_service.Smtp.Session.{Breaker, Net}
use ofm_mail_service.Smtp.Session.Trace.{Trace, net}

abbrev config : SmtpConfig
config = record (default_smtp_config "ofm@example.org" "secret") { mode = "fake" }

abbrev address_text : String → String → String
address_text name address = address

abbrev is_address : String → Bool
is_address text = true

abbrev calling : Breaker
calling W call = call

abbrev servers : Net Trace
servers = net (λ _ _. none)

is_provided :
    provide_mail_sender address_text is_address calling servers config (some tt)
    ≡ ok (discard {W = Trace})
unfolding provide_mail_sender
is_provided = refl
