-- ===== src/Fx/Claims/Sending/Tests.antt =====
-- A reader that delivers one command again and again, whose payload is the name of its event, and a
-- transport that fails.
use ofm_mail_service.Prelude.{◌≤◌, ◌≡◌, refl, String, Bool, [], ◌∷◌, Option, some, none, not, ◌==◌}
use ofm_mail_service.Errors.{Err, foreign, other}
use ofm_mail_service.Effect.{Result, ok}
use ofm_mail_service.Config.Defaults.{default_kafka_config}
use ofm_mail_service.Application.Registry.Tests.{engine, welcome_registry}
use ofm_mail_service.Application.Service.Outbox.{Outbox}
use ofm_mail_service.EventBroker.Commands.{SendMailCommand, SendMailResult}
use ofm_mail_service.Kafka.Subscriber.Delivery.{Published}
use ofm_mail_service.Kafka.Subscriber.Tests.{command}
use ofm_mail_service.Fx.Claims.{event_key}
use ofm_mail_service.Fx.Claims.Consuming.Tests.{client, redis, redis_laws, claim_answer}
use ofm_mail_service.Fx.Claims.Consuming.{Ledger}
use ofm_mail_service.Fx.Claims.Resending.{Apart}
use ofm_mail_service.Fx.Claims.Sending.{after, mails_of, IsWhole, mailed_once}

abbrev is_address : String → Bool
is_address text = not (text == "")

abbrev transport : Outbox → Option Err
transport box = some (foreign other "421 try again later")

abbrev brokers : Published String → Option Err
brokers out = none

abbrev clock : Outbox × Published String → String
clock w = "2026-01-01T00:00:00Z"

abbrev unmarshal : String → Result (SendMailCommand String)
unmarshal payload = ok command

abbrev marshal : SendMailResult → Result String
marshal result = ok result.status

encodes : (result : SendMailResult) → (bytes : String) × (marshal result ≡ ok bytes)
encodes result = (result.status, refl)

reaches : (out : Published String) → brokers out ≡ none
reaches out = refl

abbrev event_id : String → String → String
event_id subject payload = payload

-- The Redis of Fx/Claims/Consuming/Tests leaves the world beside it alone.
asked_apart :
    {W : Type 0} (o : Option String) (k v : String) (s : Ledger × W)
    → (claim_answer o k v s).1.1 ≡ s.1
asked_apart none k v s = refl
asked_apart (some u) k v s = refl

apart : {W : Type 0} → Apart {K = Ledger} {T = W} redis
apart = record {
  set_nx_apart = λ k v s. asked_apart (s.0.keys k) k v s;
  set_apart = λ k v s. refl;
  del_apart = λ k s. refl;
}

mailed_once_example :
    let ((box, _), log) =
      (after is_address engine welcome_registry transport brokers clock unmarshal marshal
        default_kafka_config encodes reaches event_id redis redis_laws apart client "mail.dlq"
        "mail.retry" "mail.send"
        (3 ∷ 2 ∷ [])
        (record { keys = λ _. none; handled = [] }, ((([], []), []), 0))).1.0 in
    (mails_of (event_key "e1") log ≤ 1) × IsWhole box log
mailed_once_example =
    mailed_once is_address engine welcome_registry transport brokers clock unmarshal marshal
      default_kafka_config encodes reaches event_id redis redis_laws apart client "mail.dlq"
      "mail.retry" "mail.send" (3 ∷ 2 ∷ []) (λ _. none) [] 0 (event_key "e1")
