-- ===== src/Kafka/Subscriber/Handling.antt =====
-- What handling one command does to the outside world.
use ofm_mail_service.Prelude.{◌≡◌, ◌∙◌, sym, ap, refl, inl, inr, String, ◌∷◌}
use ofm_mail_service.Errors.{Err, prefixed}
use ofm_mail_service.Effect.{Result, ok, err, check, Result-cases}
use ofm_mail_service.Config.{KafkaConfig}
use ofm_mail_service.Domain.{SendRequest, SendResult}
use ofm_mail_service.EventBroker.Commands.{SendMailCommand, SendMailResult}
use ofm_mail_service.EventBroker.Trace.{sent, published, Trace, Outside, service, broker, wire}
use ofm_mail_service.Kafka.Mapper.{new_mail_mapper}
use ofm_mail_service.Kafka.Subscriber.{MailCommandSubscriber, handle, report}

-- The request that stands for a command.
abbrev pub request_of : {Data : Type 0} → SendMailCommand Data → SendRequest Data
request_of cmd = record {
  session_id = cmd.session_id;
  client_id = cmd.client_id;
  user_id = cmd.user_id;
  request_id = cmd.request_id;
  correlation_id = cmd.correlation_id;
  message_type = cmd.message_type;
  to = cmd.to;
  payload = cmd.payload;
}

-- The message that answers a command: a failure echoes the command, with its reason; a success
-- carries what the service returned.
abbrev pub message_of :
    {Data : Type 0}
    → (Err → String)
    → SendMailCommand Data
    → Result SendResult
    → String
    → SendMailResult
message_of reason cmd (err e) time = record {
  session_id = cmd.session_id;
  client_id = cmd.client_id;
  user_id = cmd.user_id;
  request_id = cmd.request_id;
  correlation_id = cmd.correlation_id;
  message_type = cmd.message_type;
  to = cmd.to;
  status = "failed";
  error = reason e;
  timestamp = time;
}
message_of reason cmd (ok result) time = record {
  session_id = result.session_id;
  client_id = result.client_id;
  user_id = result.user_id;
  request_id = result.request_id;
  correlation_id = result.correlation_id;
  message_type = result.message_type;
  to = result.to;
  status = result.status;
  error = "";
  timestamp = time;
}

-- The subscriber in the world of the trace.
abbrev pub subscriber :
    {Data Payload : Type 0}
    → Outside Data Payload
    → KafkaConfig
    → (Err → String)
    → MailCommandSubscriber (Trace Data Payload) Data Payload
subscriber o cfg reason = record {
  broker = broker o;
  service = service o;
  cfg = cfg;
  resolver = record { send_mail_failure_reason = reason };
  mapper = new_mail_mapper (wire o);
  wire = wire o;
}

module _ {Data Payload : Type 0} (o : Outside Data Payload) (cfg : KafkaConfig)
    (reason : Err → String) (payload : Payload) (t : Trace Data Payload) where
  -- The bytes of the answer to a command, by what the service answered.
  abbrev encoded_as : SendMailCommand Data → Result SendResult → Result Payload
  encoded_as cmd answer =
      o.marshal (message_of reason cmd answer (o.clock (sent (request_of cmd) ∷ t)))

  abbrev encoded : SendMailCommand Data → Result Payload
  encoded cmd = encoded_as cmd (o.service_answer (request_of cmd) t)

  -- The calls that handling the payload adds to the trace `t`, with the result for each course.
  pub data Handled : Result (Unit {0}) → Trace Data Payload → Type 0 where
    undecodable :
        (x : Err)
        → o.unmarshal payload ≡ err x
        → Handled (err (prefixed "unmarshal send mail command" x)) t
    unencodable :
        (cmd : SendMailCommand Data) (x : Err)
        → o.unmarshal payload ≡ ok cmd
        → encoded cmd ≡ err x
        → Handled (err x) (sent (request_of cmd) ∷ t)
    answered :
        (cmd : SendMailCommand Data) (bytes : Payload)
        → o.unmarshal payload ≡ ok cmd
        → encoded cmd ≡ ok bytes
        → Handled
            (check (o.broker_answer (published cfg.result_topic bytes ∷ sent (request_of cmd) ∷ t)))
            (published cfg.result_topic bytes ∷ sent (request_of cmd) ∷ t)

  report-Handled :
      (cmd : SendMailCommand Data) (answer : Result SendResult) (bytes : Result Payload)
      → o.unmarshal payload ≡ ok cmd
      → o.service_answer (request_of cmd) t ≡ answer
      → encoded cmd ≡ bytes
      → let (result, t') =
          report (subscriber o cfg reason) cmd answer (sent (request_of cmd) ∷ t) in
        Handled result t'
  unfolding report new_mail_mapper
  report-Handled cmd (ok a) (ok bytes) e s m =
      rw (sym (ap (encoded_as cmd) s) ∙ m) (answered cmd bytes e m)
  report-Handled cmd (ok a) (err x) e s m =
      rw (sym (ap (encoded_as cmd) s) ∙ m) (unencodable cmd x e m)
  report-Handled cmd (err y) (ok bytes) e s m =
      rw (sym (ap (encoded_as cmd) s) ∙ m) (answered cmd bytes e m)
  report-Handled cmd (err y) (err x) e s m =
      rw (sym (ap (encoded_as cmd) s) ∙ m) (unencodable cmd x e m)

  -- A payload that is no command is refused before any call. Any other is given to the mail service
  -- exactly once, and its answer, which echoes the command with the reason of the failure, or
  -- carries the service's result, is published exactly once on the result topic, unless it cannot
  -- be encoded; a failure of the service is no failure of the handler.
  pub handle-Handled :
      (subject : String)
      → let (result, t') = handle (subscriber o cfg reason) subject payload t in Handled result t'
  unfolding handle new_mail_mapper
  handle-Handled subject = elim (Result-cases (o.unmarshal payload)) [
    | inl (cmd, e) ↦ rw e (report-Handled cmd _ _ e refl refl)
    | inr (x, e) ↦ rw e (undecodable x e)
  ]
