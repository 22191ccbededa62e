-- ===== src/EventBroker/Tests.antt =====
-- The two adapters at one command.
use ofm_mail_service.Prelude.{◌≡◌, refl, String, [], none}
use ofm_mail_service.Errors.{Err, DomainError, domain, sentinel, prefixed, root}
use ofm_mail_service.Effect.{ok, err}
use ofm_mail_service.Config.Defaults.{default_nats_config, default_kafka_config}
use ofm_mail_service.EventBroker.Commands.{SendMailCommand}
use ofm_mail_service.EventBroker.Trace.{Outside, service, broker, wire}
use ofm_mail_service.EventBroker.Agreement.{
  reported, reasons_by_root, handlers_agree, nats_subscriber, kafka_subscriber,
}
use ofm_mail_service.Nats.Subscriber.{handle_mail_send_command}
use ofm_mail_service.Kafka.Subscriber.{handle}
use ofm_mail_service.Nats.Reason.{send_mail_failure_reason as nats_reason}
use ofm_mail_service.Kafka.Reason.{send_mail_failure_reason as kafka_reason}

abbrev wrapped : Err
wrapped = prefixed "render" (sentinel (domain DomainError.template_not_found))

reasons_by_root_example :
    (nats_reason wrapped ≡ reported (root wrapped))
    × (kafka_reason wrapped ≡ reported (root wrapped))
reasons_by_root_example = reasons_by_root wrapped

abbrev command : SendMailCommand String
command = record {
  session_id = "s1";
  client_id = "c1";
  user_id = "u1";
  request_id = "r1";
  correlation_id = "k1";
  message_type = "goodbye";
  to = "ann@example.org";
  payload = "data";
}

abbrev outside : Outside String String
outside = record {
  service_answer = λ _ _. err wrapped;
  broker_answer = λ _. none;
  clock = λ _. "2026-01-01T00:00:00Z";
  unmarshal = λ _. ok command;
  marshal = λ message. ok message.error;
}

handlers_agree_example :
    handle_mail_send_command
      (nats_subscriber (broker outside) (service outside) (wire outside) default_nats_config)
      "mail.send"
      "{}"
      []
    ≡ handle
        (kafka_subscriber (broker outside) (service outside) (wire outside) default_kafka_config)
        "mail.send"
        "{}"
        []
handlers_agree_example =
    handlers_agree (broker outside) (service outside) (wire outside) default_nats_config
      default_kafka_config refl "mail.send" "{}" []
