-- ===== src/Nats/Mapper.antt =====
-- nats/mapper.go: commands as requests, and results as payloads.
use ofm_mail_service.Prelude.{String}
use ofm_mail_service.Errors.{prefixed}
use ofm_mail_service.Effect.{Result, ok, err, Eff}
use ofm_mail_service.Domain.{SendRequest, SendResult}
use ofm_mail_service.EventBroker.Commands.{Wire}
use ofm_mail_service.Nats.Commands.{SendMailCommand, SendMailResult}
use ofm_mail_service.Nats.Interfaces.{MailMessageMapper}

-- WrapMarshalSendMailResultError
unfoldable pub wrap_marshal_send_mail_result_error {ℓ} : {A : Type ℓ} → Result A → Result A
wrap_marshal_send_mail_result_error (ok a) = ok a
wrap_marshal_send_mail_result_error (err e) = err (prefixed "marshal send mail result" e)

-- ToSendRequest, which never fails
to_send_request : {Data : Type 0} → SendMailCommand Data → Result (SendRequest Data)
to_send_request cmd = ok (record {
  session_id = cmd.session_id;
  client_id = cmd.client_id;
  user_id = cmd.user_id;
  request_id = cmd.request_id;
  correlation_id = cmd.correlation_id;
  message_type = cmd.message_type;
  to = cmd.to;
  payload = cmd.payload;
})

module _ {W Data Payload : Type 0} (wire : Wire W Data Payload) where
  -- ToFailureResultPayload
  to_failure_result_payload : SendMailCommand Data → String → Eff W Payload
  unfolding wrap_marshal_send_mail_result_error
  to_failure_result_payload cmd reason w =
      let (timestamp, w') = wire.now w in
      let message : SendMailResult = record {
        session_id = cmd.session_id;
        client_id = cmd.client_id;
        user_id = cmd.user_id;
        request_id = cmd.request_id;
        correlation_id = cmd.correlation_id;
        message_type = cmd.message_type;
        to = cmd.to;
        status = "failed";
        error = reason;
        timestamp = timestamp;
      } in
      (wrap_marshal_send_mail_result_error (wire.marshal message), w')

  -- ToSuccessResultPayload
  to_success_result_payload : SendResult → Eff W Payload
  unfolding wrap_marshal_send_mail_result_error
  to_success_result_payload result w =
      let (timestamp, w') = wire.now w in
      let message : SendMailResult = record {
        session_id = result.session_id;
        client_id = result.client_id;
        user_id = result.user_id;
        request_id = result.request_id;
        correlation_id = result.correlation_id;
        message_type = result.message_type;
        to = result.to;
        status = result.status;
        error = "";
        timestamp = timestamp;
      } in
      (wrap_marshal_send_mail_result_error (wire.marshal message), w')

  unfoldable pub new_mail_message_mapper : MailMessageMapper W Data Payload
  unfolding to_failure_result_payload to_success_result_payload to_send_request
  new_mail_message_mapper = record {
    to_send_request = to_send_request;
    to_failure_result_payload = to_failure_result_payload;
    to_success_result_payload = to_success_result_payload;
  }
