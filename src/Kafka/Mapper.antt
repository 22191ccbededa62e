-- ===== src/Kafka/Mapper.antt =====
-- kafka/mapper.go: commands as requests, and results as payloads.
use ofm_mail_service.Prelude.{String}
use ofm_mail_service.Effect.{Result, ok, Eff}
use ofm_mail_service.Domain.{SendRequest, SendResult}
use ofm_mail_service.EventBroker.Commands.{SendMailCommand, Wire}
use ofm_mail_service.Kafka.Interfaces.{MailMessageMapper}

-- ToSendRequest, which never fails
to_send_request : {Data : Type 0} → SendMailCommand Data → Result (SendRequest Data)
to_send_request cmd = ok (record {
  session_id = cmd.session_id;
  client_id = cmd.client_id;
  user_id = cmd.user_id;
  request_id = cmd.request_id;
  correlation_id = cmd.correlation_id;
  message_type = cmd.message_type;
  to = cmd.to;
  payload = cmd.payload;
})

module _ {W Data Payload : Type 0} (wire : Wire W Data Payload) where
  -- ToFailureResultPayload
  to_failure_result_payload : SendMailCommand Data → String → Eff W Payload
  to_failure_result_payload cmd reason w =
      let (timestamp, w') = wire.now w in
      (
        wire.marshal (record {
          session_id = cmd.session_id;
          client_id = cmd.client_id;
          user_id = cmd.user_id;
          request_id = cmd.request_id;
          correlation_id = cmd.correlation_id;
          message_type = cmd.message_type;
          to = cmd.to;
          status = "failed";
          error = reason;
          timestamp = timestamp;
        }),
        w',
      )

  -- ToSuccessResultPayload
  to_success_result_payload : SendResult → Eff W Payload
  to_success_result_payload result w =
      let (timestamp, w') = wire.now w in
      (
        wire.marshal (record {
          session_id = result.session_id;
          client_id = result.client_id;
          user_id = result.user_id;
          request_id = result.request_id;
          correlation_id = result.correlation_id;
          message_type = result.message_type;
          to = result.to;
          status = result.status;
          error = "";
          timestamp = timestamp;
        }),
        w',
      )

  unfoldable pub new_mail_mapper : MailMessageMapper W Data Payload
  unfolding to_send_request to_failure_result_payload to_success_result_payload
  new_mail_mapper = record {
    to_send_request = to_send_request;
    to_failure_result_payload = to_failure_result_payload;
    to_success_result_payload = to_success_result_payload;
  }
