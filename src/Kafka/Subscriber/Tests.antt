-- ===== src/Kafka/Subscriber/Tests.antt =====
-- A command that is answered.
use ofm_mail_service.Prelude.{String, [], none, Option, Bool, not, ◌==◌}
use ofm_mail_service.Errors.{Err}
use ofm_mail_service.Effect.{ok}
use ofm_mail_service.Config.Defaults.{default_kafka_config}
use ofm_mail_service.EventBroker.Commands.{SendMailCommand}
use ofm_mail_service.EventBroker.Trace.{Outside, service, broker, wire}
use ofm_mail_service.Application.Service.{success_result}
use ofm_mail_service.Kafka.Mapper.{new_mail_mapper}
use ofm_mail_service.Kafka.Reason.{send_mail_failure_reason, new_domain_failure_reason_resolver}
use ofm_mail_service.Kafka.Subscriber.{handle}
use ofm_mail_service.Application.Service.Outbox.{Outbox}
use ofm_mail_service.Kafka.Subscriber.Delivery.{Published, Delivery}
use ofm_mail_service.Kafka.Subscriber.Handling.{Handled, handle-Handled}

abbrev pub command : SendMailCommand String
command = record {
  session_id = "s1";
  client_id = "c1";
  user_id = "u1";
  request_id = "r1";
  correlation_id = "k1";
  message_type = "welcome";
  to = "ann@example.org";
  payload = "data";
}

-- A payload is a text; the result message is told by its status.
abbrev pub outside : Outside String String
outside = record {
  service_answer = λ req _. ok (success_result req);
  broker_answer = λ _. none;
  clock = λ _. "2026-01-01T00:00:00Z";
  unmarshal = λ _. ok command;
  marshal = λ message. ok message.status;
}

handle-Handled_example :
    let (result, t) =
      handle
        (record {
          broker = broker outside;
          service = service outside;
          cfg = default_kafka_config;
          resolver = new_domain_failure_reason_resolver;
          mapper = new_mail_mapper (wire outside);
          wire = wire outside;
        })
        "mail.send"
        "{}"
        [] in
    Handled outside default_kafka_config send_mail_failure_reason "{}" [] result t
handle-Handled_example =
    handle-Handled outside default_kafka_config send_mail_failure_reason "{}" [] "mail.send"

abbrev is_address : String → Bool
is_address text = not (text == "")

abbrev transport : Outbox → Option Err
transport _ = none

abbrev brokers : Published String → Option Err
brokers _ = none
