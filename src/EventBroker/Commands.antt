-- ===== src/EventBroker/Commands.antt =====
-- The JSON messages: kafka/commands.go, and the same types of nats/commands.go.
use ofm_mail_service.Prelude.{String}
use ofm_mail_service.Effect.{Result}

pub record SendMailCommand (Data : Type 0) : Type 0 where
  pub session_id : String
  pub client_id : String
  pub user_id : String
  pub request_id : String
  pub correlation_id : String
  pub message_type : String
  pub to : String
  pub payload : Data

pub record SendMailResult : Type 0 where
  pub session_id : String
  pub client_id : String
  pub user_id : String
  pub request_id : String
  pub correlation_id : String
  pub message_type : String
  pub to : String
  pub status : String
  pub error : String
  pub timestamp : String

-- encoding/json at the two message types, and time.Now().UTC().Format(time.RFC3339Nano)
pub record Wire (W Data Payload : Type 0) : Type 0 where
  pub unmarshal : Payload → Result (SendMailCommand Data)
  pub marshal : SendMailResult → Result Payload
  pub now : W → String × W
