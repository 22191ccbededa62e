-- ===== src/Errors.antt =====
-- Error values. Each package's `errors.New` variables are one data type; `fmt.Errorf` with `%w`
-- wraps an error that `errors.Is` and `errors.As` find again.
pub mod Message
use mathlib.Core.Bool.{decide}
use ofm_mail_service.Prelude.{String, Bool, true, false, Option, none, some}

-- internal/domain/error.go
pub data DomainError : Type 0 where
  invalid_recipient_email invalid_message_type template_not_found : DomainError
  template_subject_empty template_body_empty failed_to_render_mail : DomainError
  failed_to_send_mail : DomainError

-- internal/application/error.go
pub data ApplicationError : Type 0 where
  nil_mail_sender nil_template_registry nil_logger : ApplicationError

-- internal/presentation/event_broker/nats/error.go
pub data NatsError : Type 0 where
  empty_nats_url nil_logger nil_broker nil_mail_service nil_failure_reason_resolver : NatsError
  empty_stream_name empty_subject empty_durable_name invalid_batch_size invalid_max_wait : NatsError
  invalid_worker_count invalid_queue_size invalid_ack_wait invalid_max_deliver : NatsError
  invalid_adaptive_check_interval invalid_adaptive_thresholds invalid_adaptive_plan : NatsError

-- internal/presentation/event_broker/kafka/error.go, and the anonymous error of `NewBroker`
pub data KafkaError : Type 0 where
  nil_broker nil_mail_service nil_failure_reason_resolver nil_logger empty_brokers : KafkaError

-- pkg/mailer/smtp/error.go
pub data SmtpError : Type 0 where
  empty_host invalid_port empty_sender_email empty_password invalid_mode nil_logger : SmtpError

-- pkg/messaging/nats/error.go
pub data StreamError : Type 0 where
  nil_logger : StreamError

pub data Sentinel : Type 0 where
  domain : DomainError → Sentinel
  application : ApplicationError → Sentinel
  nats : NatsError → Sentinel
  kafka : KafkaError → Sentinel
  smtp : SmtpError → Sentinel
  stream : StreamError → Sentinel

pub Sentinel-discrete : Discrete Sentinel
Sentinel-discrete = hlevel

-- `==` on error variables
unfoldable pub same : Sentinel → Sentinel → Bool
unfolding Sentinel-discrete decide
same a b = decide (Sentinel-discrete a b)

-- What the service asks of an error that another package made.
pub data ForeignKind : Type 0 where
  -- nats.ErrTimeout, context.DeadlineExceeded, resilience.PermanentError
  timeout deadline_exceeded permanent other : ForeignKind

pub data Err : Type 0 where
  sentinel : Sentinel → Err
  -- an error of another package, with its text
  foreign : ForeignKind → String → Err
  -- fmt.Errorf("<text>: %w", err)
  prefixed : String → Err → Err
  -- fmt.Errorf("<text>%w", err), with what stands before the error written out
  headed : String → Err → Err
  -- fmt.Errorf("%w: %v", err, detail)
  suffixed : Err → String → Err

-- errors.Is(err, target) for a target among the service's own variables
unfoldable pub is : Err → Sentinel → Bool
unfolding same
is (sentinel s) target = same s target
is (foreign kind text) target = false
is (prefixed text e) target = is e target
is (headed text e) target = is e target
is (suffixed e text) target = is e target

abbrev same_kind : ForeignKind → ForeignKind → Bool
same_kind timeout timeout = true
same_kind deadline_exceeded deadline_exceeded = true
same_kind permanent permanent = true
same_kind other other = true
same_kind _ _ = false

-- errors.Is or errors.As against another package's error
unfoldable pub is_foreign : Err → ForeignKind → Bool
is_foreign (sentinel s) kind = false
is_foreign (foreign k text) kind = same_kind k kind
is_foreign (prefixed text e) kind = is_foreign e kind
is_foreign (headed text e) kind = is_foreign e kind
is_foreign (suffixed e text) kind = is_foreign e kind

-- The error variable at the root of the chain of `%w`.
abbrev pub root : Err → Option Sentinel
root (sentinel s) = some s
root (foreign kind text) = none
root (prefixed text e) = root e
root (headed text e) = root e
root (suffixed e text) = root e
