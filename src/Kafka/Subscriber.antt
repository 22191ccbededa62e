-- ===== src/Kafka/Subscriber.antt =====
-- kafka/mail_command_subscriber.go: a command is decoded, given to the mail
-- service, and answered with a result message. The log is left out.
pub mod Handling
pub mod Delivery
pub mod Tests
use ofm_mail_service.Prelude.{String, Option, none, some}
use ofm_mail_service.Errors.{Err, KafkaError, kafka, sentinel, prefixed}
use ofm_mail_service.Effect.{Result, ok, err, Eff, lift, attempt, ◌>>=◌}
use ofm_mail_service.Config.{KafkaConfig, PullConsumerConfig}
use ofm_mail_service.Config.Defaults.{empty_pull_consumer_config}
use ofm_mail_service.Domain.{SendRequest, SendResult}
use ofm_mail_service.EventBroker.{EventBroker, MessageHandler}
use ofm_mail_service.EventBroker.Commands.{SendMailCommand, Wire}
use ofm_mail_service.Kafka.Interfaces.{FailureReasonResolver, MailMessageMapper}
use ofm_mail_service.Kafka.Mapper.{new_mail_mapper}

-- wrapUnmarshal
unfoldable pub wrap_unmarshal {ℓ} : {A : Type ℓ} → Result A → Result A
wrap_unmarshal (ok a) = ok a
wrap_unmarshal (err e) = err (prefixed "unmarshal send mail command" e)

pub record MailCommandSubscriber (W Data Payload : Type 0) : Type 0 where
  pub broker : EventBroker W Payload
  pub service : SendRequest Data → Eff W SendResult
  pub cfg : KafkaConfig
  pub resolver : FailureReasonResolver
  pub mapper : MailMessageMapper W Data Payload
  -- encoding/json, for the command
  pub wire : Wire W Data Payload

module _ {W Data Payload : Type 0} where
  refuse : KafkaError → Result (MailCommandSubscriber W Data Payload)
  refuse e = err (sentinel (kafka e))

  -- The interface values that `NewMailCommandSubscriber` is given may be nil.
  unfoldable pub new_mail_command_subscriber :
      {Log : Type 0}
      → Wire W Data Payload
      → Option (EventBroker W Payload)
      → Option (SendRequest Data → Eff W SendResult)
      → KafkaConfig
      → Option FailureReasonResolver
      → Option Log
      → Result (MailCommandSubscriber W Data Payload)
  unfolding refuse new_mail_mapper
  new_mail_command_subscriber wire none service cfg resolver log = refuse KafkaError.nil_broker
  new_mail_command_subscriber wire (some broker) none cfg resolver log =
      refuse KafkaError.nil_mail_service
  new_mail_command_subscriber wire (some broker) (some service) cfg none log =
      refuse KafkaError.nil_failure_reason_resolver
  new_mail_command_subscriber wire (some broker) (some service) cfg (some resolver) none =
      refuse KafkaError.nil_logger
  new_mail_command_subscriber wire (some broker) (some service) cfg (some resolver) (some log) =
      ok (record {
        broker = broker;
        service = service;
        cfg = cfg;
        resolver = resolver;
        mapper = new_mail_mapper wire;
        wire = wire;
      })

module _ {W Data Payload : Type 0} (s : MailCommandSubscriber W Data Payload) where
  -- the result message of a call of the service
  unfoldable pub report : SendMailCommand Data → Result SendResult → Eff W (Unit {0})
  report cmd (err e) = do
    encoded ← s.mapper.to_failure_result_payload cmd (s.resolver.send_mail_failure_reason e)
    s.broker.publish s.cfg.result_topic encoded
  report cmd (ok result) = do
    encoded ← s.mapper.to_success_result_payload result
    s.broker.publish s.cfg.result_topic encoded

  unfoldable pub handle : MessageHandler W Payload
  unfolding report wrap_unmarshal
  handle _ payload = do
    cmd ← lift (wrap_unmarshal (s.wire.unmarshal payload))
    request ← lift (s.mapper.to_send_request cmd)
    attempt (s.service request) (report cmd)

  unfoldable pub subscribe : Eff W (Unit {0})
  unfolding handle
  subscribe =
      s.broker.run_pull_consumer
        (record empty_pull_consumer_config { subject = s.cfg.command_topic }) handle
