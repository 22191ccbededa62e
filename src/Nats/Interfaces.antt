-- ===== src/Nats/Interfaces.antt =====
-- nats/type.go, and the resolver of nats/error_reason.go: the interfaces between the parts of the
-- package. The logger is left out.
use ofm_mail_service.Prelude.{String, Option}
use ofm_mail_service.Errors.{Err}
use ofm_mail_service.Effect.{Result, Eff}
use ofm_mail_service.Config.{PullConsumerConfig}
use ofm_mail_service.Domain.{SendRequest, SendResult}
use ofm_mail_service.EventBroker.{MessageHandler}
use ofm_mail_service.Nats.Commands.{SendMailCommand}

pub record FailureReasonResolver : Type 0 where
  pub send_mail_failure_reason : Err → String

pub record MailMessageMapper (W Data Payload : Type 0) : Type 0 where
  pub to_send_request : SendMailCommand Data → Result (SendRequest Data)
  pub to_failure_result_payload : SendMailCommand Data → String → Eff W Payload
  pub to_success_result_payload : SendResult → Eff W Payload

-- `none` is a nil error.
pub record PullConsumerConfigValidator : Type 0 where
  pub validate : PullConsumerConfig → Option Err

pub record PullConsumerRuntime (W : Type 0) : Type 0 where
  pub start : W → W

pub record PullConsumerRuntimeFactory (W Payload : Type 0) : Type 0 where
  pub create : PullConsumerConfig → MessageHandler W Payload → Eff W (PullConsumerRuntime W)
