-- ===== src/EventBroker/Agreement.antt =====
-- The NATS and the Kafka adapters against each other, and against a table of reasons.
use ofm_mail_service.Prelude.{◌≡◌, refl, inl, inr, String, Option, some, arith, ◌∙◌}
use ofm_mail_service.Errors.{
  Err, Sentinel, DomainError, domain, sentinel, foreign, prefixed, headed, suffixed, is, root,
}
use ofm_mail_service.Effect.{Result, ok, err, Eff, Result-cases}
use ofm_mail_service.Config.{NatsConfig, KafkaConfig}
use ofm_mail_service.Domain.{SendRequest, SendResult}
use ofm_mail_service.EventBroker.{EventBroker}
use ofm_mail_service.EventBroker.Commands.{SendMailCommand, Wire}
use ofm_mail_service.Nats
use ofm_mail_service.Kafka
use ofm_mail_service.Nats.Mapper.{wrap_marshal_send_mail_result_error, new_mail_message_mapper}
use ofm_mail_service.Nats.Subscriber.{handle_mail_send_command, publish_result}
use ofm_mail_service.Kafka.Mapper.{new_mail_mapper}
use ofm_mail_service.Kafka.Subscriber.{handle, report}
use ofm_mail_service.Application.Service.{is_domain_send_error}
use ofm_mail_service.Nats.Reason.{send_mail_failure_reason as nats_reason}
use ofm_mail_service.Kafka.Reason.{send_mail_failure_reason as kafka_reason}

-- The reason that consumers of the result message rely on, for each error of the mail domain.
abbrev pub domain_reason : DomainError → String
domain_reason DomainError.invalid_recipient_email = "invalid recipient email"
domain_reason DomainError.invalid_message_type = "invalid message type"
domain_reason DomainError.template_not_found = "mail template not found"
domain_reason DomainError.template_subject_empty = "mail template subject is empty"
domain_reason DomainError.template_body_empty = "mail template body is empty"
domain_reason DomainError.failed_to_render_mail = "failed to render mail template"
domain_reason DomainError.failed_to_send_mail = "failed to send mail"

-- The reason by the error variable at the root of a wrapped error.
abbrev pub reported : Option Sentinel → String
reported (some (domain d)) = domain_reason d
reported _ = "internal mail delivery error"

kafka_reason-domain : (d : DomainError) → kafka_reason (sentinel (domain d)) ≡ domain_reason d
unfolding kafka_reason is_domain_send_error is
kafka_reason-domain DomainError.invalid_recipient_email = refl
kafka_reason-domain _ = refl

kafka_reason-sentinel : (s : Sentinel) → kafka_reason (sentinel s) ≡ reported (some s)
unfolding kafka_reason is_domain_send_error is
kafka_reason-sentinel (domain d) = kafka_reason-domain d
kafka_reason-sentinel _ = refl

pub kafka_reason-root : (e : Err) → kafka_reason e ≡ reported (root e)
unfolding kafka_reason is_domain_send_error is
kafka_reason-root (sentinel s) = kafka_reason-sentinel s
kafka_reason-root (foreign kind text) = refl
kafka_reason-root (prefixed text e) = kafka_reason-root e
kafka_reason-root (headed text e) = kafka_reason-root e
kafka_reason-root (suffixed e text) = kafka_reason-root e

nats_reason-eq-kafka_reason : (e : Err) → nats_reason e ≡ kafka_reason e
unfolding nats_reason kafka_reason
nats_reason-eq-kafka_reason e = ground arith

-- Both resolvers answer the reason of the error variable at the root of the chain, however often
-- the error is wrapped, and "internal mail delivery error" where that is none of the domain's.
pub reasons_by_root :
    (e : Err) → (nats_reason e ≡ reported (root e)) × (kafka_reason e ≡ reported (root e))
reasons_by_root e = (nats_reason-eq-kafka_reason e ∙ kafka_reason-root e, kafka_reason-root e)

module _ {W Data Payload : Type 0} (broker : EventBroker W Payload)
    (service : SendRequest Data → Eff W SendResult) (wire : Wire W Data Payload) where
  -- The NATS adapter wraps an encoding error, and the Kafka adapter does not.
  abbrev wrapping_wire : Wire W Data Payload
  wrapping_wire = record wire {
    marshal = λ message. wrap_marshal_send_mail_result_error (wire.marshal message);
  }

  abbrev pub nats_subscriber : NatsConfig → Nats.Subscriber.MailCommandSubscriber W Data Payload
  nats_subscriber cfg = record {
    broker = broker;
    service = service;
    cfg = cfg;
    resolver = Nats.Reason.new_domain_failure_reason_resolver;
    mapr = new_mail_message_mapper wire;
    wire = wire;
  }

  abbrev pub kafka_subscriber : KafkaConfig → Kafka.Subscriber.MailCommandSubscriber W Data Payload
  kafka_subscriber cfg = record {
    broker = broker;
    service = service;
    cfg = cfg;
    resolver = Kafka.Reason.new_domain_failure_reason_resolver;
    mapper = new_mail_mapper wrapping_wire;
    wire = wrapping_wire;
  }

  module _ (ncfg : NatsConfig) (kcfg : KafkaConfig)
      (same : ncfg.mail_send_result_subject ≡ kcfg.result_topic) where
    answers_agree :
        (cmd : SendMailCommand Data) (answer : Result SendResult) (w : W)
        → publish_result (nats_subscriber ncfg) cmd answer w
          ≡ report (kafka_subscriber kcfg) cmd answer w
    unfolding publish_result report new_mail_message_mapper new_mail_mapper
    answers_agree cmd (ok result) w = rw same
    answers_agree cmd (err e) w = rw (same, nats_reason-eq-kafka_reason e)

    -- With the same result destination the two handlers do the same: the same calls in the same
    -- order, the same messages, and the same result but for the text that the NATS adapter puts
    -- before an encoding error.
    pub handlers_agree :
        (subject : String) (payload : Payload) (w : W)
        → handle_mail_send_command (nats_subscriber ncfg) subject payload w
          ≡ handle (kafka_subscriber kcfg) subject payload w
    unfolding handle_mail_send_command handle new_mail_message_mapper new_mail_mapper
    handlers_agree subject payload w = elim (Result-cases (wire.unmarshal payload)) [
      | inl (cmd, e) ↦ rw e (answers_agree cmd _ _)
      | inr (x, e) ↦ rw e
    ]
