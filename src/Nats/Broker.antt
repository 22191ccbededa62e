-- ===== src/Nats/Broker.antt =====
-- nats/broker.go, and `Create` of nats/pull_consumer_runtime.go. The log is left out. `quote` is
-- strconv.Quote, the verb `%q`. A context is told by the time to its deadline, where it has one.
pub mod Laws
pub mod Publishing
pub mod Answering
mod Tests
use Prim.Native.String.{◌++◌}
use mathlib.Core.Option.{get_or}
use ofm_mail_service.Prelude.{ℕ, ◌*◌, String, Option, none, some, ◌==◌, if◌then◌else◌}
use ofm_mail_service.Errors.{Err, NatsError, nats, sentinel, prefixed, headed}
use ofm_mail_service.Errors.Message.{error_text}
use ofm_mail_service.Effect.{Result, ok, err, Eff, pure, fail, lift, attempt, check, ◌>>=◌, ◌>>◌}
use ofm_mail_service.Config.{NatsConfig, PullConsumerConfig}
use ofm_mail_service.EventBroker.{EventBroker, MessageHandler}
use ofm_mail_service.Nats.Connection.{
  Conn, ConsumerConfig, ack_explicit, connect_options, wrap_connect_to_nats_error,
  wrap_init_jet_stream_context_error,
}
use ofm_mail_service.Nats.Interfaces.{
  PullConsumerConfigValidator, PullConsumerRuntime, PullConsumerRuntimeFactory,
}
use ofm_mail_service.Nats.Validator.{new_pull_consumer_config_validator}

-- WrapPublishToNATSError
abbrev wrap_publish_to_nats_error {ℓ} : {A : Type ℓ} → String → Result A → Result A
wrap_publish_to_nats_error subject (ok a) = ok a
wrap_publish_to_nats_error subject (err e) =
    err (prefixed ("publish to nats (" ++ subject ++ ")") e)

-- WrapSubscribeToNATSError
abbrev wrap_subscribe_to_nats_error {ℓ} : {A : Type ℓ} → String → Result A → Result A
wrap_subscribe_to_nats_error subject (ok a) = ok a
wrap_subscribe_to_nats_error subject (err e) =
    err (prefixed ("subscribe to nats (" ++ subject ++ ")") e)

-- WrapFlushNATSPublisherError
abbrev wrap_flush_nats_publisher_error {ℓ} : {A : Type ℓ} → Result A → Result A
wrap_flush_nats_publisher_error (ok a) = ok a
wrap_flush_nats_publisher_error (err e) = err (prefixed "flush nats publisher" e)

-- WrapEnsureConsumerError
wrap_ensure_consumer_error : (String → String) → String → String → Err → Err → Err
wrap_ensure_consumer_error quote stream durable add_err update_err =
    headed
      ("ensure consumer "
        ++ quote durable
        ++ " in stream "
        ++ quote stream
        ++ ": add err="
        ++ error_text add_err
        ++ ", update err=")
      update_err

-- WrapCreatePullSubscriberError
abbrev wrap_create_pull_subscriber_error {ℓ} :
    {A : Type ℓ} → (String → String) → String → String → Result A → Result A
wrap_create_pull_subscriber_error quote subject durable (ok a) = ok a
wrap_create_pull_subscriber_error quote subject durable (err e) = err (
    prefixed ("create pull subscriber subject=" ++ quote subject ++ " durable=" ++ quote durable) e)

abbrev pub flush_timeout : ℕ
flush_timeout = 5 * 1_000_000_000

pub consumer_config : PullConsumerConfig → ConsumerConfig
consumer_config cfg = record {
  durable = cfg.durable;
  filter_subject = cfg.subject;
  ack_policy = ack_explicit;
  ack_wait = cfg.ack_wait;
  max_deliver = cfg.max_deliver;
}

-- natsBroker, whose connection is the parameter of the section below; a nil part is `none`.
pub record NatsBroker (W Payload : Type 0) : Type 0 where
  pub validator : Option PullConsumerConfigValidator
  pub runtime_factory : Option (PullConsumerRuntimeFactory W Payload)

module _ {W Payload : Type 0} (quote : String → String) (conn : Conn W Payload) where
  -- Flush
  flush : Option ℕ → Eff W (Unit {0})
  flush (some time) = conn.flush_with_context time
  flush none = conn.flush_with_context flush_timeout

  abbrev mapped : (Result (Unit {0}) → Result (Unit {0})) → Eff W (Unit {0}) → Eff W (Unit {0})
  mapped f m w = let (r, w') = m w in (f r, w')

  flushed : Option ℕ → Eff W (Unit {0})
  unfolding flush
  flushed ctx = mapped wrap_flush_nats_publisher_error (flush ctx)

  pub publish : Option ℕ → String → Payload → Eff W (Unit {0})
  unfolding flushed
  publish ctx subject payload = do
    mapped (wrap_publish_to_nats_error subject) (conn.publish_msg subject payload)
    flushed ctx

  -- The callback of `Subscribe`: the error of the handler is only logged.
  abbrev callback : MessageHandler W Payload → String → Payload → W → W
  callback handler subject payload w = (handler subject payload w).1

  pub subscribe : Option ℕ → String → MessageHandler W Payload → Eff W (Unit {0})
  unfolding flushed
  subscribe ctx subject handler = do
    mapped (wrap_subscribe_to_nats_error subject) (conn.subscribe subject (callback handler))
    flushed ctx

  -- what follows `AddConsumer`
  added : PullConsumerConfig → Result (Unit {0}) → Eff W (Unit {0})
  unfolding wrap_ensure_consumer_error consumer_config
  added cfg (ok _) w = (ok tt, w)
  added cfg (err add_err) w =
      attempt (conn.update_consumer cfg.stream (consumer_config cfg)) updated w
    where
      updated : Result (Unit {0}) → Eff W (Unit {0})
      updated (ok _) = pure tt
      updated (err update_err) =
          fail (wrap_ensure_consumer_error quote cfg.stream cfg.durable add_err update_err)

  -- The struct of the runtime is told by what its `Start` does.
  create : PullConsumerConfig → MessageHandler W Payload → Eff W (PullConsumerRuntime W)
  unfolding added consumer_config
  create cfg handler = do
    mapped wrap_init_jet_stream_context_error conn.jet_stream
    attempt (conn.add_consumer cfg.stream (consumer_config cfg)) (added cfg)
    mapped (wrap_create_pull_subscriber_error quote cfg.subject cfg.durable)
        (conn.pull_subscribe cfg.subject cfg.durable cfg.stream)
    pure (record { start = conn.start_consumer cfg handler })

  pub new_pull_consumer_runtime_factory : PullConsumerRuntimeFactory W Payload
  unfolding create
  new_pull_consumer_runtime_factory = record { create = create }

  -- Close, on a connection that is not nil
  close : W → W
  close = conn.close

  module _ (b : NatsBroker W Payload) where
    pub run_pull_consumer : PullConsumerConfig → MessageHandler W Payload → Eff W (Unit {0})
    unfolding new_pull_consumer_runtime_factory
    run_pull_consumer cfg handler = do
      lift (check ((get_or b.validator new_pull_consumer_config_validator).validate cfg))
      runtime ← (get_or b.runtime_factory new_pull_consumer_runtime_factory).create cfg handler
      (λ w. (ok tt, runtime.start w))

    -- the methods of a broker, in calls with one context
    pub nats_broker : Option ℕ → EventBroker W Payload
    unfolding publish subscribe run_pull_consumer close
    nats_broker ctx = record {
      publish = publish ctx;
      subscribe = subscribe ctx;
      run_pull_consumer = run_pull_consumer;
      close = close;
    }

  pub new_broker : {Log : Type 0} → NatsConfig → Option Log → Eff W (NatsBroker W Payload)
  unfolding new_pull_consumer_runtime_factory
  new_broker cfg log =
      if cfg.url == "" then fail (sentinel (nats NatsError.empty_nats_url)) else elim log [
        | none ↦ fail (sentinel (nats NatsError.nil_logger))
        | some _ ↦ (do
          mapped wrap_connect_to_nats_error (conn.connect cfg.url (connect_options cfg))
          pure (record {
            validator = some new_pull_consumer_config_validator;
            runtime_factory = some new_pull_consumer_runtime_factory;
          }))
      ]
