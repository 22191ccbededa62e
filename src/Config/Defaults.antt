-- ===== src/Config/Defaults.antt =====
-- The `envDefault` values of config/*.go: the settings of a process with none of these variables.
use Prim.Native.Nat.{◌*◌}
use ofm_mail_service.Prelude.{ℕ, String, true, false, [], ◌∷◌, ℤ, pos}
use ofm_mail_service.Config.{
  NatsConfig, KafkaConfig, SmtpConfig, TemplatesConfig, PullConsumerConfig, AppConfig,
  MetricsConfig, TracingConfig, RedisConfig, Config,
}

abbrev milliseconds : ℕ → ℤ
milliseconds n = pos (n * 1_000_000)

abbrev seconds : ℕ → ℤ
seconds n = pos (n * 1_000_000_000)

-- `NATS_URL`, `NATS_USER` and `NATS_PASSWORD` have no default: they are empty.
abbrev pub default_nats_config : NatsConfig
default_nats_config = record {
  url = "";
  user = "";
  password = "";
  mail_commands_stream = "MAIL_COMMANDS";
  mail_events_stream = "MAIL_EVENTS";
  mail_send_subject = "mail.send";
  mail_send_result_subject = "mail.send.result";
  mail_send_durable = "mail_service_send";
  mail_batch_size = pos 32;
  mail_max_wait = milliseconds 10;
  mail_workers = pos 8;
  mail_queue_size = pos 500;
  mail_ack_wait = seconds 30;
  mail_max_deliver = pos 5;
  mail_adaptive_enabled = false;
  mail_adaptive_check_interval = seconds 2;
  mail_adaptive_medium_pending = pos 200;
  mail_adaptive_high_pending = pos 1000;
  mail_adaptive_low_batch_size = pos 8;
  mail_adaptive_low_max_wait = milliseconds 25;
  mail_adaptive_medium_batch_size = pos 32;
  mail_adaptive_medium_max_wait = milliseconds 10;
  mail_adaptive_high_batch_size = pos 128;
  mail_adaptive_high_max_wait = milliseconds 2;
}

abbrev pub default_kafka_config : KafkaConfig
default_kafka_config = record {
  brokers = "127.0.0.1:9092" ∷ [];
  group_id = "mail-service";
  command_topic = "mail.send";
  result_topic = "mail.send.result";
}

-- `SENDER_EMAIL` and `EMAIL_PASSWORD` are required: there is no default.
abbrev pub default_smtp_config : String → String → SmtpConfig
default_smtp_config sender_email password = record {
  host = "smtp.gmail.com";
  port = pos 587;
  mode = "starttls";
  sender_email = sender_email;
  password = password;
  from_name = "OFM";
}

abbrev pub default_templates_config : TemplatesConfig
default_templates_config = record { dir = "templates" }

abbrev default_app_config : AppConfig
default_app_config = record { env = "local"; log_level = "info"; observability_mode = "production" }

abbrev default_metrics_config : MetricsConfig
default_metrics_config = record {
  enabled = true;
  host = "0.0.0.0";
  port = pos 9605;
  path = "/metrics";
}

-- with the number that the text "1.0" stands for
abbrev default_tracing_config : {Float : Type 0} → Float → TracingConfig Float
default_tracing_config one = record {
  enabled = true;
  endpoint = "http://127.0.0.1:9099";
  protocol = "http/protobuf";
  sample_ratio = one;
  service_version = "dev";
}

-- `REDIS_PASSWORD` has no default: it is empty.
abbrev pub default_redis_config : RedisConfig
default_redis_config = record { host = "localhost"; port = pos 6379; password = ""; db = pos 0 }

-- with the sender's address and password
abbrev pub default_config : {Float : Type 0} → Float → String → String → Config Float
default_config one sender_email password = record {
  app = default_app_config;
  metrics = default_metrics_config;
  tracing = default_tracing_config one;
  smtp = default_smtp_config sender_email password;
  nats = default_nats_config;
  kafka = default_kafka_config;
  redis = default_redis_config;
  templates = default_templates_config;
}

-- The zero value of `PullConsumerConfig`, for a literal that names few fields.
abbrev pub empty_pull_consumer_config : PullConsumerConfig
empty_pull_consumer_config = record {
  stream = "";
  subject = "";
  durable = "";
  batch_size = pos 0;
  max_wait = pos 0;
  workers = pos 0;
  queue_size = pos 0;
  ack_wait = pos 0;
  max_deliver = pos 0;
  adaptive = record {
    enabled = false;
    check_interval = pos 0;
    medium_pending = pos 0;
    high_pending = pos 0;
    low_batch_size = pos 0;
    low_max_wait = pos 0;
    medium_batch_size = pos 0;
    medium_max_wait = pos 0;
    high_batch_size = pos 0;
    high_max_wait = pos 0;
  };
}
