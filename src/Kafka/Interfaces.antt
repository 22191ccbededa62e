-- ===== src/Kafka/Interfaces.antt =====
-- kafka/type.go and the resolver of kafka/error_reason.go: the interfaces between the parts of the
-- package.
use ofm_mail_service.Prelude.{String}
use ofm_mail_service.Errors.{Err}
use ofm_mail_service.Effect.{Result, Eff}
use ofm_mail_service.Domain.{SendRequest, SendResult}
use ofm_mail_service.EventBroker.Commands.{SendMailCommand}

pub record MailMessageMapper (W Data Payload : Type 0) : Type 0 where
  pub to_send_request : SendMailCommand Data → Result (SendRequest Data)
  pub to_failure_result_payload : SendMailCommand Data → String → Eff W Payload
  pub to_success_result_payload : SendResult → Eff W Payload

-- failureReasonResolver, and FailureReasonResolver with the same method
pub record FailureReasonResolver : Type 0 where
  pub send_mail_failure_reason : Err → String
