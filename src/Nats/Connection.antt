-- ===== src/Nats/Connection.antt =====
-- The calls of the NATS client library that nats/broker.go, nats/pull_consumer_runtime.go and
-- pkg/messaging/nats/bootstrap.go make, on the one connection that each of them opens.
pub mod Trace
use ofm_mail_service.Prelude.{ℕ, String, List, Option, none, some, ◌==◌, if◌then◌else◌, ℤ, negsuc}
use ofm_mail_service.Errors.{prefixed}
use ofm_mail_service.Effect.{Result, ok, err, Eff}
use ofm_mail_service.Config.{NatsConfig, PullConsumerConfig}

-- nats.Name, nats.MaxReconnects, nats.UserInfo
pub record ConnectOptions : Type 0 where
  pub name : String
  pub max_reconnects : ℤ
  pub user_info : Option (String × String)

pub data AckPolicy : Type 0 where
  ack_none ack_all ack_explicit : AckPolicy

-- nats.ConsumerConfig
pub record ConsumerConfig : Type 0 where
  pub durable : String
  pub filter_subject : String
  pub ack_policy : AckPolicy
  pub ack_wait : ℤ
  pub max_deliver : ℤ

pub data Storage : Type 0 where
  file_storage memory_storage : Storage

pub data Retention : Type 0 where
  limits_policy interest_policy work_queue_policy : Retention

-- nats.StreamConfig
pub record StreamConfig : Type 0 where
  pub name : String
  pub subjects : List String
  pub storage : Storage
  pub retention : Retention
  pub replicas : ℤ
  pub max_age : ℕ

pub record Conn (W Payload : Type 0) : Type 0 where
  pub connect : String → ConnectOptions → Eff W (Unit {0})
  pub close : W → W
  pub publish_msg : String → Payload → Eff W (Unit {0})
  -- the callback is run for each message that comes in
  pub subscribe : String → (String → Payload → W → W) → Eff W (Unit {0})
  -- with the time that is left, in nanoseconds
  pub flush_with_context : ℕ → Eff W (Unit {0})
  pub jet_stream : Eff W (Unit {0})
  pub add_consumer : String → ConsumerConfig → Eff W (Unit {0})
  pub update_consumer : String → ConsumerConfig → Eff W (Unit {0})
  -- the subject, the durable consumer, and the stream that it is bound to
  pub pull_subscribe : String → String → String → Eff W (Unit {0})
  pub add_stream : StreamConfig → Eff W (Unit {0})
  pub update_stream : StreamConfig → Eff W (Unit {0})
  -- the `go` statements of `Start`
  pub start_consumer : PullConsumerConfig → (String → Payload → Eff W (Unit {0})) → W → W

-- the options of `NewBroker` and of `Connect`
unfoldable pub connect_options : NatsConfig → ConnectOptions
connect_options cfg = record {
  name = "mail-service";
  max_reconnects = negsuc 0;
  user_info = if cfg.user == "" then none else some (cfg.user, cfg.password);
}

-- WrapConnectToNATSError, of both packages
abbrev pub wrap_connect_to_nats_error {ℓ} : {A : Type ℓ} → Result A → Result A
wrap_connect_to_nats_error (ok a) = ok a
wrap_connect_to_nats_error (err e) = err (prefixed "connect to nats" e)

-- WrapInitJetStreamContextError, of both packages
abbrev pub wrap_init_jet_stream_context_error {ℓ} : {A : Type ℓ} → Result A → Result A
wrap_init_jet_stream_context_error (ok a) = ok a
wrap_init_jet_stream_context_error (err e) = err (prefixed "init jetstream context" e)
