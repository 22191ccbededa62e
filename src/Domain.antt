-- ===== src/Domain.antt =====
-- internal/domain/email.go. `Data any` is a type parameter: the code only hands it on.
use ofm_mail_service.Prelude.{String}

pub record Email : Type 0 where
  pub to : String
  pub subject : String
  pub html_body : String

pub record SendRequest (Data : Type 0) : Type 0 where
  pub session_id : String
  pub client_id : String
  pub user_id : String
  pub request_id : String
  pub correlation_id : String
  pub message_type : String
  pub to : String
  pub payload : Data

pub record SendResult : Type 0 where
  pub session_id : String
  pub client_id : String
  pub user_id : String
  pub request_id : String
  pub correlation_id : String
  pub message_type : String
  pub to : String
  pub status : String
  pub error : String
