-- ===== src/Nats/Settings.antt =====
-- How nats/mail_command_subscriber.go projects the NATS settings to those of its pull consumer.
use ofm_mail_service.Config.{NatsConfig, PullAdaptiveConfig, PullConsumerConfig}

unfoldable pub build_adaptive_config : NatsConfig → PullAdaptiveConfig
build_adaptive_config cfg = record {
  enabled = cfg.mail_adaptive_enabled;
  check_interval = cfg.mail_adaptive_check_interval;
  medium_pending = cfg.mail_adaptive_medium_pending;
  high_pending = cfg.mail_adaptive_high_pending;
  low_batch_size = cfg.mail_adaptive_low_batch_size;
  low_max_wait = cfg.mail_adaptive_low_max_wait;
  medium_batch_size = cfg.mail_adaptive_medium_batch_size;
  medium_max_wait = cfg.mail_adaptive_medium_max_wait;
  high_batch_size = cfg.mail_adaptive_high_batch_size;
  high_max_wait = cfg.mail_adaptive_high_max_wait;
}

unfoldable pub build_pull_consumer_config : NatsConfig → PullConsumerConfig
unfolding build_adaptive_config
build_pull_consumer_config cfg = record {
  stream = cfg.mail_commands_stream;
  subject = cfg.mail_send_subject;
  durable = cfg.mail_send_durable;
  batch_size = cfg.mail_batch_size;
  max_wait = cfg.mail_max_wait;
  workers = cfg.mail_workers;
  queue_size = cfg.mail_queue_size;
  ack_wait = cfg.mail_ack_wait;
  max_deliver = cfg.mail_max_deliver;
  adaptive = build_adaptive_config cfg;
}
