-- ===== src/Nats/Broker/Tests.antt =====
-- The durable consumer is there already, with other settings: it is brought up to date.
use ofm_mail_service.Prelude.{◌≡◌, refl, String, [], Option, none, some}
use ofm_mail_service.Errors.{Err, foreign, other}
use ofm_mail_service.Effect.{ok}
use ofm_mail_service.EventBroker.{MessageHandler}
use ofm_mail_service.Application.Service.{success_result}
use ofm_mail_service.Config.Defaults.{default_nats_config}
use ofm_mail_service.Kafka.Subscriber.Tests.{command}
use ofm_mail_service.Nats.Broker.Answering.{Office, subscriber, Answered, Settles, handle-Answered}
use ofm_mail_service.Nats.Reason.{send_mail_failure_reason}
use ofm_mail_service.Nats.Runtime.{Runtime, start, settled}
use ofm_mail_service.Nats.Subscriber.{MailCommandSubscriber, handle_mail_send_command}
use ofm_mail_service.Nats.Connection.Trace.{Command, flush, add_consumer, Trace, starts, conn}
use ofm_mail_service.Nats.Broker.{NatsBroker, run_pull_consumer, create, added}
use ofm_mail_service.Nats.Broker.Laws.{IsUsual, Started, run_pull_consumer-Started}
use ofm_mail_service.Nats.Plan.Tests.{settings}
use ofm_mail_service.Nats.Settings.{build_pull_consumer_config}
use ofm_mail_service.Nats.Validator.{validate}

abbrev answer : Command String → Trace String → Option Err
answer (add_consumer stream c) t = some (foreign other "consumer already exists")
answer _ t = none

abbrev zero_broker : NatsBroker (Trace String) String
zero_broker = record { validator = none; runtime_factory = none }

zero_broker-IsUsual : IsUsual answer (λ text. text) zero_broker
zero_broker-IsUsual = record { validator = refl; runtime_factory = refl }

abbrev handler : MessageHandler (Trace String) String
handler subject payload t = (ok tt, t)

run_pull_consumer-Started_example :
    let (r, t) = run_pull_consumer (λ text. text) (conn answer) zero_broker settings handler [] in
    Started settings [] r t
run_pull_consumer-Started_example =
    run_pull_consumer-Started settings answer (λ text. text) zero_broker zero_broker-IsUsual handler
      []

updated_starts :
    starts (run_pull_consumer (λ text. text) (conn answer) zero_broker settings handler []).1 ≡ 1
unfolding run_pull_consumer create added validate build_pull_consumer_config
updated_starts = refl

-- A command whose result the server takes, but does not confirm in time.
abbrev slow : Command String → Trace String → Option Err
slow (flush time) t = some (foreign other "nats: timeout")
slow _ t = none

abbrev office : Office String String
office = record {
  service_answer = λ request t. ok (success_result request);
  clock = λ t. "2026-01-01T00:00:00Z";
  unmarshal = λ payload. ok command;
  marshal = λ message. ok message.status;
}

abbrev answering : MailCommandSubscriber (Trace String) String String
answering =
    subscriber office slow (λ text. text) zero_broker default_nats_config send_mail_failure_reason
      none

-- a worker of a consumer that has just started
abbrev consumer : Runtime String
consumer = start settings 0

handle-Answered_example :
    let (r, t) = handle_mail_send_command answering "mail.send" "{}" [] in
    Answered office slow
      (λ text. text)
      zero_broker
      default_nats_config
      send_mail_failure_reason
      none
      "{}"
      []
      r
      t
    × Settles office slow
        (λ text. text)
        zero_broker
        default_nats_config
        send_mail_failure_reason
        none
        "{}"
        []
        "{}"
        consumer
        (settled "{}" r consumer)
        t
handle-Answered_example =
    handle-Answered office slow (λ text. text) zero_broker default_nats_config
      send_mail_failure_reason none "{}" [] "mail.send" "{}" consumer
