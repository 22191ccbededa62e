-- ===== src/Nats/Subscriber.antt =====
-- nats/mail_command_subscriber.go: a command is decoded, given to the mail
-- service, and answered with a result message. The log is left out.
use ofm_mail_service.Prelude.{Option, none, some}
use ofm_mail_service.Errors.{Err, NatsError, nats, sentinel, prefixed}
use ofm_mail_service.Effect.{Result, ok, err, Eff, lift, attempt, ◌>>=◌}
use ofm_mail_service.Config.{NatsConfig}
use ofm_mail_service.Nats.Interfaces.{FailureReasonResolver, MailMessageMapper}
use ofm_mail_service.Nats.Mapper.{new_mail_message_mapper}
use ofm_mail_service.Nats.Settings.{build_pull_consumer_config}
use ofm_mail_service.Domain.{SendRequest, SendResult}
use ofm_mail_service.EventBroker.{EventBroker, MessageHandler}
use ofm_mail_service.EventBroker.Commands.{Wire}
use ofm_mail_service.Nats.Commands.{SendMailCommand}

-- WrapUnmarshalSendMailCommandError
unfoldable pub wrap_unmarshal_send_mail_command_error {ℓ} : {A : Type ℓ} → Result A → Result A
wrap_unmarshal_send_mail_command_error (ok a) = ok a
wrap_unmarshal_send_mail_command_error (err e) = err (prefixed "unmarshal send mail command" e)

pub record MailCommandSubscriber (W Data Payload : Type 0) : Type 0 where
  pub broker : EventBroker W Payload
  pub service : SendRequest Data → Eff W SendResult
  pub cfg : NatsConfig
  pub resolver : FailureReasonResolver
  pub mapr : MailMessageMapper W Data Payload
  -- encoding/json, for the command
  pub wire : Wire W Data Payload

module _ {W Data Payload : Type 0} where
  refuse : NatsError → Result (MailCommandSubscriber W Data Payload)
  refuse e = err (sentinel (nats e))

  -- The interface values that `NewMailCommandSubscriber` is given may be nil.
  pub new_mail_command_subscriber :
      {Log : Type 0}
      → Wire W Data Payload
      → Option (EventBroker W Payload)
      → Option (SendRequest Data → Eff W SendResult)
      → NatsConfig
      → Option FailureReasonResolver
      → Option Log
      → Result (MailCommandSubscriber W Data Payload)
  unfolding refuse new_mail_message_mapper
  new_mail_command_subscriber wire none service cfg resolver log = refuse NatsError.nil_broker
  new_mail_command_subscriber wire (some broker) none cfg resolver log =
      refuse NatsError.nil_mail_service
  new_mail_command_subscriber wire (some broker) (some service) cfg none log =
      refuse NatsError.nil_failure_reason_resolver
  new_mail_command_subscriber wire (some broker) (some service) cfg (some resolver) none =
      refuse NatsError.nil_logger
  new_mail_command_subscriber wire (some broker) (some service) cfg (some resolver) (some log) =
      ok (record {
        broker = broker;
        service = service;
        cfg = cfg;
        resolver = resolver;
        mapr = new_mail_message_mapper wire;
        wire = wire;
      })

module _ {W Data Payload : Type 0} (s : MailCommandSubscriber W Data Payload) where
  publish_failure_result : SendMailCommand Data → Err → Eff W (Unit {0})
  publish_failure_result cmd e = do
    payload ← s.mapr.to_failure_result_payload cmd (s.resolver.send_mail_failure_reason e)
    s.broker.publish s.cfg.mail_send_result_subject payload

  publish_success_result : SendResult → Eff W (Unit {0})
  publish_success_result result = do
    payload ← s.mapr.to_success_result_payload result
    s.broker.publish s.cfg.mail_send_result_subject payload

  -- what follows the call of the service
  unfoldable pub publish_result : SendMailCommand Data → Result SendResult → Eff W (Unit {0})
  unfolding publish_failure_result publish_success_result
  publish_result cmd (err e) = publish_failure_result cmd e
  publish_result cmd (ok result) = publish_success_result result

  unfoldable pub handle_mail_send_command : MessageHandler W Payload
  unfolding publish_result wrap_unmarshal_send_mail_command_error
  handle_mail_send_command _ payload = do
    cmd ← lift (wrap_unmarshal_send_mail_command_error (s.wire.unmarshal payload))
    request ← lift (s.mapr.to_send_request cmd)
    attempt (s.service request) (publish_result cmd)

  unfoldable pub subscribe : Eff W (Unit {0})
  unfolding handle_mail_send_command
  subscribe = s.broker.run_pull_consumer (build_pull_consumer_config s.cfg) handle_mail_send_command
