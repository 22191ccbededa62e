-- ===== src/Config.antt =====
-- config/*.go: the settings that the modelled code reads. Integers are Go's `int`, and durations
-- are nanoseconds, both as signed numbers. Reading the environment is left to the library `env`.
pub mod Defaults
pub mod Loading
use ofm_mail_service.Prelude.{String, Bool, List, ℤ}

-- config/pull_consumer.go
pub record PullAdaptiveConfig : Type 0 where
  pub enabled : Bool
  pub check_interval : ℤ
  pub medium_pending : ℤ
  pub high_pending : ℤ
  pub low_batch_size : ℤ
  pub low_max_wait : ℤ
  pub medium_batch_size : ℤ
  pub medium_max_wait : ℤ
  pub high_batch_size : ℤ
  pub high_max_wait : ℤ

pub record PullConsumerConfig : Type 0 where
  pub stream : String
  pub subject : String
  pub durable : String
  pub batch_size : ℤ
  pub max_wait : ℤ
  pub workers : ℤ
  pub queue_size : ℤ
  pub ack_wait : ℤ
  pub max_deliver : ℤ
  pub adaptive : PullAdaptiveConfig

-- config/nats.go
pub record NatsConfig : Type 0 where
  pub url : String
  pub user : String
  pub password : String
  pub mail_commands_stream : String
  pub mail_events_stream : String
  pub mail_send_subject : String
  pub mail_send_result_subject : String
  pub mail_send_durable : String
  pub mail_batch_size : ℤ
  pub mail_max_wait : ℤ
  pub mail_workers : ℤ
  pub mail_queue_size : ℤ
  pub mail_ack_wait : ℤ
  pub mail_max_deliver : ℤ
  pub mail_adaptive_enabled : Bool
  pub mail_adaptive_check_interval : ℤ
  pub mail_adaptive_medium_pending : ℤ
  pub mail_adaptive_high_pending : ℤ
  pub mail_adaptive_low_batch_size : ℤ
  pub mail_adaptive_low_max_wait : ℤ
  pub mail_adaptive_medium_batch_size : ℤ
  pub mail_adaptive_medium_max_wait : ℤ
  pub mail_adaptive_high_batch_size : ℤ
  pub mail_adaptive_high_max_wait : ℤ

-- config/kafka.go
pub record KafkaConfig : Type 0 where
  pub brokers : List String
  pub group_id : String
  pub command_topic : String
  pub result_topic : String

-- config/smtp.go
pub record SmtpConfig : Type 0 where
  pub host : String
  pub port : ℤ
  pub mode : String
  pub sender_email : String
  pub password : String
  pub from_name : String

-- config/templates.go
pub record TemplatesConfig : Type 0 where
  pub dir : String

-- config/app.go
pub record AppConfig : Type 0 where
  pub env : String
  pub log_level : String
  pub observability_mode : String

-- config/metrics.go
pub record MetricsConfig : Type 0 where
  pub enabled : Bool
  pub host : String
  pub port : ℤ
  pub path : String

-- config/tracing.go, over the type of floating-point numbers
pub record TracingConfig (Float : Type 0) : Type 0 where
  pub enabled : Bool
  pub endpoint : String
  pub protocol : String
  pub sample_ratio : Float
  pub service_version : String

-- config/redis.go
pub record RedisConfig : Type 0 where
  pub host : String
  pub port : ℤ
  pub password : String
  pub db : ℤ

-- config/config.go
pub record Config (Float : Type 0) : Type 0 where
  pub app : AppConfig
  pub metrics : MetricsConfig
  pub tracing : TracingConfig Float
  pub smtp : SmtpConfig
  pub nats : NatsConfig
  pub kafka : KafkaConfig
  pub redis : RedisConfig
  pub templates : TemplatesConfig
