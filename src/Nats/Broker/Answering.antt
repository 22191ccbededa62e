-- ===== src/Nats/Broker/Answering.antt =====
-- A command that the NATS subscriber handles over the NATS broker. The mail service, JSON and the
-- clock make no call on the connection.
use ofm_mail_service.Prelude.{ℕ, ◌≡◌, ◌∙◌, sym, ap, refl, ◌⊎◌, inl, inr, String, ◌∷◌, Option, none}
use ofm_mail_service.Errors.{Err, prefixed}
use ofm_mail_service.Effect.{Result, ok, err, Result-cases}
use ofm_mail_service.Config.{NatsConfig}
use ofm_mail_service.Domain.{SendRequest, SendResult}
use ofm_mail_service.EventBroker.Commands.{SendMailCommand, SendMailResult, Wire}
use ofm_mail_service.Kafka.Subscriber.Handling.{request_of, message_of}
use ofm_mail_service.Nats.Broker.{NatsBroker, nats_broker}
use ofm_mail_service.Nats.Connection.Trace.{Command, publish_msg, call, Trace, conn}
use ofm_mail_service.Nats.Broker.Laws.{IsUsual, Started, run_pull_consumer-Started}
use ofm_mail_service.Nats.Settings.{build_pull_consumer_config}
use ofm_mail_service.Nats.Broker.Publishing.{
  flushing, Published, refused, unflushed, sent, publish-Published,
}
use ofm_mail_service.Nats.Mapper.{new_mail_message_mapper}
use ofm_mail_service.Nats.Runtime.{Runtime, settled}
use ofm_mail_service.Nats.Subscriber.{
  MailCommandSubscriber, subscribe, handle_mail_send_command, publish_result,
}

-- What handles commands beside the connection.
pub record Office (Data Payload : Type 0) : Type 0 where
  pub service_answer : SendRequest Data → Trace Payload → Result SendResult
  pub clock : Trace Payload → String
  pub unmarshal : Payload → Result (SendMailCommand Data)
  pub marshal : SendMailResult → Result Payload

module _ {Data Payload : Type 0} (o : Office Data Payload)
    (answer : Command Payload → Trace Payload → Option Err) (quote : String → String)
    (b : NatsBroker (Trace Payload) Payload) (cfg : NatsConfig) (reason : Err → String)
    (ctx : Option ℕ) where
  abbrev wire : Wire (Trace Payload) Data Payload
  wire = record { unmarshal = o.unmarshal; marshal = o.marshal; now = λ t. (o.clock t, t) }

  abbrev pub subscriber : MailCommandSubscriber (Trace Payload) Data Payload
  subscriber = record {
    broker = nats_broker quote (conn answer) b ctx;
    service = λ request t. (o.service_answer request t, t);
    cfg = cfg;
    resolver = record { send_mail_failure_reason = reason };
    mapr = new_mail_message_mapper wire;
    wire = wire;
  }

  -- `Subscribe` starts the consumer that the configuration describes.
  pub subscribe-Started :
      IsUsual answer quote b
      → (t : Trace Payload)
      → let (r, t') = subscribe subscriber t in Started (build_pull_consumer_config cfg) t r t'
  unfolding subscribe nats_broker
  subscribe-Started usual t =
      run_pull_consumer-Started (build_pull_consumer_config cfg) answer quote b usual
        (handle_mail_send_command subscriber) t

  module _ (payload : Payload) (t : Trace Payload) where
    -- The bytes of the answer to a command.
    abbrev encoded_as : SendMailCommand Data → Result SendResult → Result Payload
    encoded_as cmd result = o.marshal (message_of reason cmd result (o.clock t))

    abbrev encoded : SendMailCommand Data → Result Payload
    encoded cmd = encoded_as cmd (o.service_answer (request_of cmd) t)

    -- The calls on the connection behind the trace `t`, with the result of the handler.
    pub data Answered : Result (Unit {0}) → Trace Payload → Type 0 where
      undecodable :
          (x : Err)
          → o.unmarshal payload ≡ err x
          → Answered (err (prefixed "unmarshal send mail command" x)) t
      unencodable :
          (cmd : SendMailCommand Data) (x : Err)
          → o.unmarshal payload ≡ ok cmd
          → encoded cmd ≡ err x
          → Answered (err (prefixed "marshal send mail result" x)) t
      answered :
          (cmd : SendMailCommand Data) (bytes : Payload) {r : Result (Unit {0})}
          {t' : Trace Payload}
          → o.unmarshal payload ≡ ok cmd
          → encoded cmd ≡ ok bytes
          → Published answer ctx t cfg.mail_send_result_subject bytes r t'
          → Answered r t'

    publish_result-Answered :
        (cmd : SendMailCommand Data) (result : Result SendResult) (bytes : Result Payload)
        → o.unmarshal payload ≡ ok cmd
        → o.service_answer (request_of cmd) t ≡ result
        → encoded cmd ≡ bytes
        → let (r, t') = publish_result subscriber cmd result t in Answered r t'
    unfolding publish_result new_mail_message_mapper nats_broker
    publish_result-Answered cmd (ok a) (ok bytes) e s m =
        rw (sym (ap (encoded_as cmd) s) ∙ m)
          (answered cmd bytes e m (publish-Published answer quote ctx t _ bytes))
    publish_result-Answered cmd (ok a) (err x) e s m =
        rw (sym (ap (encoded_as cmd) s) ∙ m) (unencodable cmd x e m)
    publish_result-Answered cmd (err y) (ok bytes) e s m =
        rw (sym (ap (encoded_as cmd) s) ∙ m)
          (answered cmd bytes e m (publish-Published answer quote ctx t _ bytes))
    publish_result-Answered cmd (err y) (err x) e s m =
        rw (sym (ap (encoded_as cmd) s) ∙ m) (unencodable cmd x e m)

    -- The server has taken the answer to a command, and the flush behind it.
    abbrev pub IsTold : Trace Payload → Type 0
    IsTold t' =
        (cmd : SendMailCommand Data) × (bytes : Payload) × (o.unmarshal payload ≡ ok cmd)
        × (encoded cmd ≡ ok bytes)
        × (t'
            ≡ call (flushing ctx) none
              ∷ call (publish_msg cfg.mail_send_result_subject bytes) none
              ∷ t)

    -- What a worker makes of the handler's result.
    abbrev pub Settles : {Msg : Type 0} → Msg → Runtime Msg → Runtime Msg → Trace Payload → Type 0
    Settles msg s s' t' =
        ((s'.acked ≡ msg ∷ s.acked) × (s'.naked ≡ s.naked) × IsTold t')
        ⊎ ((s'.naked ≡ msg ∷ s.naked) × (s'.acked ≡ s.acked))

    Published-Settles :
        {Msg : Type 0} (msg : Msg) (s : Runtime Msg) (cmd : SendMailCommand Data) (bytes : Payload)
        {r : Result (Unit {0})} {t' : Trace Payload}
        → o.unmarshal payload ≡ ok cmd
        → encoded cmd ≡ ok bytes
        → Published answer ctx t cfg.mail_send_result_subject bytes r t'
        → Settles msg s (settled msg r s) t'
    unfolding settled
    Published-Settles msg s cmd bytes e m (refused x p) = inr (refl, refl)
    Published-Settles msg s cmd bytes e m (unflushed x p f) = inr (refl, refl)
    Published-Settles msg s cmd bytes e m (sent p f) = inl (refl, refl, (cmd, bytes, e, m, refl))

    Answered-Settles :
        {Msg : Type 0} (msg : Msg) (s : Runtime Msg) {r : Result (Unit {0})} {t' : Trace Payload}
        → Answered r t'
        → Settles msg s (settled msg r s) t'
    unfolding settled
    Answered-Settles msg s (undecodable x e) = inr (refl, refl)
    Answered-Settles msg s (unencodable cmd x e m) = inr (refl, refl)
    Answered-Settles msg s (answered cmd bytes e m p) = Published-Settles msg s cmd bytes e m p

    handle_answers :
        (subject : String)
        → let (r, t') = handle_mail_send_command subscriber subject payload t in Answered r t'
    unfolding handle_mail_send_command new_mail_message_mapper
    handle_answers subject = elim (Result-cases (o.unmarshal payload)) [
      | inl (cmd, e) ↦ rw e (publish_result-Answered cmd _ _ e refl refl)
      | inr (x, e) ↦ rw e (undecodable x e)
    ]

    -- A payload that is no command, and an answer that cannot be encoded, are refused before any call
    -- on the connection. Any other command is answered with one message on the result subject, and
    -- the handler returns nil exactly where the server has taken the message and the flush behind it,
    -- which waits to the deadline of the context or five seconds. So a worker acknowledges a message
    -- only where the answer to its command was taken and flushed, and rejects it otherwise.
    pub handle-Answered :
        {Msg : Type 0} (subject : String) (msg : Msg) (s : Runtime Msg)
        → let (r, t') = handle_mail_send_command subscriber subject payload t in
          Answered r t' × Settles msg s (settled msg r s) t'
    handle-Answered subject msg s =
        let answer = handle_answers subject in (answer, Answered-Settles msg s answer)
