-- ===== src/Kafka/Subscriber/Delivery.antt =====
-- The subscriber over the mail service, from the payload of a command to the mail and the result
-- message. The world is what the transport was handed, and what was published.
use ofm_mail_service.Prelude.{◌≡◌, refl, ◌⊎◌, inl, inr, String, List, ◌∷◌, Bool, Option}
use ofm_mail_service.Errors.{Err}
use ofm_mail_service.Effect.{Result, ok, err, Eff, check, pure}
use ofm_mail_service.Config.{KafkaConfig}
use ofm_mail_service.Domain.{Email, SendRequest, SendResult}
use ofm_mail_service.Application.Registry.{TemplateEngine, Registry, render}
use ofm_mail_service.Application.Service.{send}
use ofm_mail_service.Application.Service.Beside.{sender_beside, send-beside}
use ofm_mail_service.Application.Service.Laws.{Outcome, send-Outcome}
use ofm_mail_service.Application.Service.Outbox.{Outbox, recording}
use ofm_mail_service.EventBroker.{EventBroker}
use ofm_mail_service.EventBroker.Commands.{Wire, SendMailCommand, SendMailResult}
use ofm_mail_service.Kafka.Subscriber.{MailCommandSubscriber, handle, report}
use ofm_mail_service.Kafka.Subscriber.Handling.{request_of, message_of}
use ofm_mail_service.Kafka.Mapper.{new_mail_mapper}
use ofm_mail_service.Kafka.Reason.{send_mail_failure_reason, new_domain_failure_reason_resolver}

abbrev pub Published : Type 0 → Type 0
Published Payload = List (String × Payload)

module _ {Data Payload : Type 0} (is_address : String → Bool) (engine : TemplateEngine Data)
    (r : Registry engine) (transport : Outbox → Option Err)
    (brokers : Published Payload → Option Err) (clock : Outbox × Published Payload → String)
    (unmarshal : Payload → Result (SendMailCommand Data))
    (marshal : SendMailResult → Result Payload) (cfg : KafkaConfig) where
  abbrev pub World : Type 0
  World = Outbox × Published Payload

  abbrev publishing : EventBroker World Payload
  publishing = record {
    publish =
        λ topic bytes w. (check (brokers ((topic, bytes) ∷ w.1)), (w.0, (topic, bytes) ∷ w.1));
    subscribe = λ _ _. pure tt;
    run_pull_consumer = λ _ _. pure tt;
    close = λ w. w;
  }

  abbrev serving : SendRequest Data → Eff World SendResult
  serving = send is_address (record {
    sender = sender_beside (Published Payload) (recording transport);
    registry = render engine r;
  })

  abbrev process_wire : Wire World Data Payload
  process_wire = record { unmarshal = unmarshal; marshal = marshal; now = λ w. (clock w, w) }

  abbrev pub process_subscriber : MailCommandSubscriber World Data Payload
  process_subscriber = record {
    broker = publishing;
    service = serving;
    cfg = cfg;
    resolver = new_domain_failure_reason_resolver;
    mapper = new_mail_mapper process_wire;
    wire = process_wire;
  }

  -- what the registry makes of a command
  abbrev pub rendering : SendMailCommand Data → Result Email
  rendering cmd = render engine r (request_of cmd).message_type (request_of cmd).payload

  -- What a handled command has become: mails and an answer of the service that belong together, and
  -- the answer's message on the result topic, unless it cannot be encoded.
  pub record Delivery (cmd : SendMailCommand Data) (box : Outbox) (out : Published Payload)
      (w : World) : Type 0 where
    pub answer : Result SendResult
    pub mailed : Outcome is_address (rendering cmd) transport (request_of cmd) box answer w.0
    pub told :
        let message = message_of send_mail_failure_reason cmd answer (clock (w.0, out)) in
        ((bytes : Payload) × (marshal message ≡ ok bytes) × (w.1 ≡ (cfg.result_topic, bytes) ∷ out))
        ⊎ ((x : Err) × (marshal message ≡ err x) × (w.1 ≡ out))

  report-Delivery :
      (cmd : SendMailCommand Data) (box box' : Outbox) (out : Published Payload)
      (answer : Result SendResult) (bytes : Result Payload)
      → Outcome is_address (rendering cmd) transport (request_of cmd) box answer box'
      → marshal (message_of send_mail_failure_reason cmd answer (clock (box', out))) ≡ bytes
      → Delivery cmd box out (report process_subscriber cmd answer (box', out)).1
  unfolding report new_mail_mapper
  report-Delivery cmd box box' out (ok a) (ok bytes) o m =
      rw m (record { answer = ok a; mailed = o; told = inl (bytes, m, refl) })
  report-Delivery cmd box box' out (ok a) (err x) o m =
      rw m (record { answer = ok a; mailed = o; told = inr (x, m, refl) })
  report-Delivery cmd box box' out (err y) (ok bytes) o m =
      rw m (record { answer = err y; mailed = o; told = inl (bytes, m, refl) })
  report-Delivery cmd box box' out (err y) (err x) o m =
      rw m (record { answer = err y; mailed = o; told = inr (x, m, refl) })

  served :
      (cmd : SendMailCommand Data) (box : Outbox) (out : Published Payload)
      → let (answer, w) = serving (request_of cmd) (box, out) in
        Delivery cmd box out (report process_subscriber cmd answer w).1
  served cmd box out =
      rw (send-beside is_address (recording transport) (render engine r) (request_of cmd) box out) (
        report-Delivery cmd box _ out _ _
          (send-Outcome is_address engine r transport (request_of cmd) box) refl)

  pub handle-Delivery :
      (subject : String) (payload : Payload) (cmd : SendMailCommand Data) (box : Outbox)
      (out : Published Payload)
      → unmarshal payload ≡ ok cmd
      → Delivery cmd box out (handle process_subscriber subject payload (box, out)).1
  unfolding handle new_mail_mapper
  handle-Delivery subject payload cmd box out e = rw e (served cmd box out)
