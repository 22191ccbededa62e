-- ===== src/Errors/Message.antt =====
-- What `err.Error()` answers: the text of each package's error variables, and of the wrappers.
use Prim.Native.String.{◌++◌}
use ofm_mail_service.Prelude.{String}
use ofm_mail_service.Errors.{
  DomainError, ApplicationError, NatsError, KafkaError, SmtpError, StreamError, Sentinel, Err,
  domain, application, nats, kafka, smtp, stream, sentinel, foreign, prefixed, headed, suffixed,
}

unfoldable pub domain_text : DomainError → String
domain_text DomainError.invalid_recipient_email = "invalid recipient email"
domain_text DomainError.invalid_message_type = "invalid message type"
domain_text DomainError.template_not_found = "mail template not found"
domain_text DomainError.template_subject_empty = "mail template subject is empty"
domain_text DomainError.template_body_empty = "mail template body is empty"
domain_text DomainError.failed_to_render_mail = "failed to render mail"
domain_text DomainError.failed_to_send_mail = "failed to send mail"

application_text : ApplicationError → String
application_text ApplicationError.nil_mail_sender = "mail sender is nil"
application_text ApplicationError.nil_template_registry = "template registry is nil"
application_text ApplicationError.nil_logger = "logger is nil"

nats_text : NatsError → String
nats_text NatsError.empty_nats_url = "nats url is empty"
nats_text NatsError.nil_logger = "logger is nil"
nats_text NatsError.nil_broker = "event broker is nil"
nats_text NatsError.nil_mail_service = "mail service is nil"
nats_text NatsError.nil_failure_reason_resolver = "failure reason resolver is nil"
nats_text NatsError.empty_stream_name = "stream name is empty"
nats_text NatsError.empty_subject = "subject is empty"
nats_text NatsError.empty_durable_name = "durable name is empty"
nats_text NatsError.invalid_batch_size = "batch size must be greater than zero"
nats_text NatsError.invalid_max_wait = "max wait must be greater than zero"
nats_text NatsError.invalid_worker_count = "worker count must be greater than zero"
nats_text NatsError.invalid_queue_size = "queue size must be greater than zero"
nats_text NatsError.invalid_ack_wait = "ack wait must be greater than zero"
nats_text NatsError.invalid_max_deliver = "max deliver must be greater than zero"
nats_text NatsError.invalid_adaptive_check_interval =
    "adaptive check interval must be greater than zero"
nats_text NatsError.invalid_adaptive_thresholds =
    "adaptive thresholds must satisfy: high > medium >= 0"
nats_text NatsError.invalid_adaptive_plan =
    "adaptive plan batch size and max wait must be greater than zero"

kafka_text : KafkaError → String
kafka_text KafkaError.nil_broker = "event broker is nil"
kafka_text KafkaError.nil_mail_service = "mail service is nil"
kafka_text KafkaError.nil_failure_reason_resolver = "failure reason resolver is nil"
kafka_text KafkaError.nil_logger = "logger is nil"
kafka_text KafkaError.empty_brokers = "kafka brokers are empty"

smtp_text : SmtpError → String
smtp_text SmtpError.empty_host = "smtp host is empty"
smtp_text SmtpError.invalid_port = "smtp port must be greater than zero"
smtp_text SmtpError.empty_sender_email = "smtp sender email is empty"
smtp_text SmtpError.empty_password = "smtp password is empty"
smtp_text SmtpError.invalid_mode = "smtp mode is invalid"
smtp_text SmtpError.nil_logger = "logger is nil"

stream_text : StreamError → String
stream_text StreamError.nil_logger = "logger is nil"

unfoldable pub sentinel_text : Sentinel → String
unfolding domain_text application_text nats_text kafka_text smtp_text stream_text
sentinel_text (domain e) = domain_text e
sentinel_text (application e) = application_text e
sentinel_text (nats e) = nats_text e
sentinel_text (kafka e) = kafka_text e
sentinel_text (smtp e) = smtp_text e
sentinel_text (stream e) = stream_text e

unfoldable pub error_text : Err → String
unfolding sentinel_text
error_text (sentinel s) = sentinel_text s
error_text (foreign kind text) = text
error_text (prefixed text e) = text ++ ": " ++ error_text e
error_text (headed text e) = text ++ error_text e
error_text (suffixed e text) = error_text e ++ ": " ++ text
