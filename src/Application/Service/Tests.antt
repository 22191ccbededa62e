-- ===== src/Application/Service/Tests.antt =====
-- A request that is delivered.
use ofm_mail_service.Prelude.{String, Bool, none, Option, not, ◌==◌}
use ofm_mail_service.Errors.{Err}
use ofm_mail_service.Domain.{SendRequest}
use ofm_mail_service.Application.Service.Outbox.{Outbox}

abbrev request : SendRequest String
request = record {
  session_id = "s1";
  client_id = "c1";
  user_id = "u1";
  request_id = "r1";
  correlation_id = "k1";
  message_type = "welcome";
  to = "ann@example.org";
  payload = "data";
}

abbrev is_address : String → Bool
is_address text = not (text == "")

abbrev answer : Outbox → Option Err
answer _ = none
