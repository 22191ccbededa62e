-- ===== src/Nats/Broker/Laws.antt =====
-- When a pull consumer is started.
use mathlib.Core.Option.{get_or}
use ofm_mail_service.Prelude.{◌+◌, ◌≡◌, ◌⊎◌, refl, String, ◌∷◌, Option, none, some, arith}
use ofm_mail_service.Errors.{Err}
use ofm_mail_service.Effect.{Result, ok, err}
use ofm_mail_service.Config.{NatsConfig, PullConsumerConfig}
use ofm_mail_service.EventBroker.{MessageHandler}
use ofm_mail_service.Nats.Connection.Trace.{
  Command, add_consumer, update_consumer, pull_subscribe, call, consumer_started, Trace, starts,
  conn,
}
use ofm_mail_service.Nats.Broker.{
  NatsBroker, consumer_config, run_pull_consumer, create, added, new_broker,
  new_pull_consumer_runtime_factory,
}
use ofm_mail_service.Nats.Validator.{validate, new_pull_consumer_config_validator}
use ofm_mail_service.Nats.Validator.Laws.{IsValid, validate_iff}

module _ {Payload : Type 0} (answer : Command Payload → Trace Payload → Option Err)
    (quote : String → String) where
  -- The parts of a broker are the package's own, or nil.
  pub record IsUsual (b : NatsBroker (Trace Payload) Payload) : Type 0 where
    pub validator :
        get_or b.validator new_pull_consumer_config_validator ≡ new_pull_consumer_config_validator
    pub runtime_factory :
        get_or b.runtime_factory (new_pull_consumer_runtime_factory quote (conn answer))
        ≡ new_pull_consumer_runtime_factory quote (conn answer)

  pub new_broker-IsUsual :
      {Log : Type 0} (cfg : NatsConfig) (log : Option Log) (t : Trace Payload)
      {b : NatsBroker (Trace Payload) Payload}
      → (new_broker quote (conn answer) cfg log t).0 ≡ ok b
      → IsUsual b
  unfolding new_broker new_pull_consumer_runtime_factory
  new_broker-IsUsual cfg none t h = ground arith
  new_broker-IsUsual cfg (some l) t h = ground arith

module _ {Payload : Type 0} (cfg : PullConsumerConfig) where
  -- The durable consumer of `cfg` was made, or brought up to date.
  abbrev pub HasConsumer : Trace Payload → Type 0
  HasConsumer (call (add_consumer stream c) none ∷ t) =
      (stream ≡ cfg.stream) × (c ≡ consumer_config cfg)
  HasConsumer (call (update_consumer stream c) none ∷ t) =
      (stream ≡ cfg.stream) × (c ≡ consumer_config cfg)
  HasConsumer _ = ⊥

  -- The goroutines of `cfg` were started, on a subscription to its durable consumer.
  abbrev pub IsStarted : Trace Payload → Type 0
  IsStarted (consumer_started c ∷ call (pull_subscribe subject durable stream) none ∷ t) =
      (c ≡ cfg)
      × (subject ≡ cfg.subject)
      × (durable ≡ cfg.durable)
      × (stream ≡ cfg.stream)
      × HasConsumer t
  IsStarted _ = ⊥

  -- What an answer of `RunPullConsumer` says, from the trace before to the one after.
  abbrev pub Started : Trace Payload → Result (Unit {0}) → Trace Payload → Type 0
  Started t (ok _) t' = IsValid cfg × IsStarted t' × (starts t' ≡ starts t + 1)
  Started t (err e) t' =
      (starts t' ≡ starts t) × (((validate cfg ≡ some e) × (t' ≡ t)) ⊎ IsValid cfg)

  module _ (answer : Command Payload → Trace Payload → Option Err) (quote : String → String)
      (b : NatsBroker (Trace Payload) Payload) (usual : IsUsual answer quote b)
      (handler : MessageHandler (Trace Payload) Payload) (t : Trace Payload) where
    Started-by :
        (o : Option Err)
        → validate cfg ≡ o
        → let (r, t') = run_pull_consumer quote (conn answer) b cfg handler t in Started t r t'
    unfolding run_pull_consumer new_pull_consumer_runtime_factory create added
    Started-by none e =
        let v = (validate_iff cfg).0 e in
        rw (usual.validator, usual.runtime_factory, e) (ground arith)
    Started-by (some x) e = rw (usual.validator, e) (ground arith)

    -- On a broker whose parts are the package's own, or nil, `RunPullConsumer` starts a consumer
    -- exactly where it returns nil, once: then the settings are valid, and the durable consumer was
    -- made or brought up to date and is subscribed to. For settings that are not valid it returns
    -- the validator's error, with no call.
    pub run_pull_consumer-Started :
        let (r, t') = run_pull_consumer quote (conn answer) b cfg handler t in Started t r t'
    run_pull_consumer-Started = Started-by _ refl
