-- ===== src/Fx/Startup.antt =====
-- The part of the process that internal/fx wires around the consumer, from its start to its stop:
-- the broker with its claims, and the background consumer that depends on it.
pub mod Tests
use ofm_mail_service.Prelude.{
  ℕ, suc, ◌≡◌, ◌≢◌, ◌⊎◌, inl, inr, refl, ap, ◌∙◌, String, List, [], ◌∷◌, ◌++◌, Option, none, some,
  arith,
}
use ofm_mail_service.Errors.{Err}
use ofm_mail_service.Effect.{Result, ok, err, Eff, check, ◌>>=◌, ◌>>◌}
use ofm_mail_service.Config.{RedisConfig, KafkaConfig}
use ofm_mail_service.EventBroker.{EventBroker}
use ofm_mail_service.Kafka.Broker.{Broker, new_broker}
use ofm_mail_service.Fx.Claims.{Redis}
use ofm_mail_service.Fx.Lifecycle.{Hook, Background, start_background, stop_background}
use ofm_mail_service.Fx.Messaging.{
  RedisClient, RedisOptions, redis_options, provide_event_broker, provide_event_broker_with_claims,
}
use ofm_mail_service.Fx.Presentation.{invoke_subscribe_mail_commands}

-- The container fx, and what it documents of hooks: it starts them in the order in which they were
-- appended, as long as none fails, and stops them in the reverse order.
pub record Container (W : Type 0) : Type 0 where
  pub start : List (Hook W) → W → W
  pub stop : List (Hook W) → W → W
  pub start_nil : (w : W) → start [] w ≡ w
  pub start_none :
      (hook : Hook W) (hooks : List (Hook W)) (w : W)
      → hook.on_start ≡ none
      → start (hook ∷ hooks) w ≡ start hooks w
  pub start_some :
      (hook : Hook W) (hooks : List (Hook W)) (run : Eff W (Unit {0})) (w : W)
      → hook.on_start ≡ some run
      → (run w).0 ≡ ok tt
      → start (hook ∷ hooks) w ≡ start hooks (run w).1
  pub stop_nil : (w : W) → stop [] w ≡ w
  pub stop_none :
      (hook : Hook W) (hooks : List (Hook W)) (w : W)
      → hook.on_stop ≡ none
      → stop (hook ∷ hooks) w ≡ stop hooks w
  pub stop_some :
      (hook : Hook W) (hooks : List (Hook W)) (run : Eff W (Unit {0})) (w : W)
      → hook.on_stop ≡ some run
      → stop (hook ∷ hooks) w ≡ (run (stop hooks w)).1

-- two hooks that only stop, and one that does both
module _ {W : Type 0} (container : Container W) (stop1 stop2 start3 stop3 : Eff W (Unit {0})) where
  abbrev stops : Eff W (Unit {0}) → Hook W
  stops run = record { on_start = none; on_stop = some run }

  abbrev both : Hook W
  both = record { on_start = some start3; on_stop = some stop3 }

  abbrev three : List (Hook W)
  three = stops stop1 ∷ stops stop2 ∷ both ∷ []

  started : (w : W) → (start3 w).0 ≡ ok tt → container.start three w ≡ (start3 w).1
  started w good =
      container.start_none (stops stop1) (stops stop2 ∷ both ∷ []) w refl
      ∙ container.start_none (stops stop2) (both ∷ []) w refl
      ∙ container.start_some both [] start3 w refl good
      ∙ container.start_nil (start3 w).1

  stopped : (w : W) → container.stop three w ≡ (stop1 (stop2 (stop3 w).1).1).1
  stopped w =
      container.stop_some (stops stop1) (stops stop2 ∷ both ∷ []) stop1 w refl
      ∙ ap (λ v. (stop1 v).1)
          (container.stop_some (stops stop2) (both ∷ []) stop2 w refl
            ∙ ap (λ v. (stop2 v).1)
                (container.stop_some both [] stop3 w refl
                  ∙ ap (λ v. (stop3 v).1) (container.stop_nil w)))

  starts_and_stops :
      (w : W)
      → (start3 w).0 ≡ ok tt
      → container.stop three (container.start three w) ≡ (stop1 (stop2 (stop3 (start3 w).1).1).1).1
  starts_and_stops w good = ap (container.stop three) (started w good) ∙ stopped (start3 w).1

pub data Event : Type 0 where
  redis_opened : RedisOptions → Event
  redis_closed broker_closed : Event
  consumer_started cancelled : ℕ → Event

-- The variable `cancel`, the number of contexts, and what was done, the last event first.
pub record World : Type 0 where
  pub variable : Option ℕ
  pub contexts : ℕ
  pub log : List Event

abbrev pub idle : World
idle = record { variable = none; contexts = 0; log = [] }

abbrev note : Event → World → World
note e w = record w { log = e ∷ w.log }

abbrev background : Background World ℕ
background = record {
  with_cancel = λ w. (w.contexts, record w { contexts = suc w.contexts });
  cancel = λ ctx w. note (cancelled ctx) w;
  assign = λ ctx w. record w { variable = some ctx };
  assigned = λ w. w.variable;
  go = λ ctx w. note (consumer_started ctx) w;
}

-- How the outside answers.
pub record Outside : Type 0 where
  pub instrument_answer : Option Err
  pub ping_answer : Option Err
  pub close_answer : Option Err
  pub commands : Redis World

abbrev redis_client : Outside → RedisClient World
redis_client o = record {
  new_client = λ options w. note (redis_opened options) w;
  instrument_tracing = λ w. (check o.instrument_answer, w);
  retry_ping = λ w. (check o.ping_answer, w);
  close = λ w. (check o.close_answer, note redis_closed w);
  commands = o.commands;
}

module _ {Bytes Reader : Type 0} (container : Container World) (event_id : String → Bytes → String)
    (event_broker : Broker Reader → EventBroker World Bytes) (o : Outside) (redis_cfg : RedisConfig)
    (kafka_cfg : KafkaConfig) where
  -- the interface of a broker whose end is noted
  abbrev noted_broker : Broker Reader → EventBroker World Bytes
  noted_broker b = record (event_broker b) { close = note broker_closed }

  -- The container calls the constructor of the broker before what depends on it.
  abbrev pub wired : Result (Unit {0}) × (List (Hook World) × World)
  wired =
      (do
        provide_event_broker_with_claims event_id noted_broker (redis_client o) redis_cfg kafka_cfg
        invoke_subscribe_mail_commands background)
        ([], idle)

  abbrev pub Stops : Result (Unit {0}) → List (Hook World) → World → Type 0
  Stops (ok _) hooks w =
      (kafka_cfg.brokers ≢ [])
      × ((container.stop hooks (container.start hooks w)).log
          ≡ redis_closed
            ∷ broker_closed
            ∷ cancelled 0
            ∷ consumer_started 0
            ∷ redis_opened (redis_options redis_cfg)
            ∷ [])
  Stops (err e) hooks w =
      (w.log ≡ redis_opened (redis_options redis_cfg) ∷ [])
      × ((hooks ≡ []) ⊎ (kafka_cfg.brokers ≡ []))

  wired_cases :
      (i p : Option Err) (brokers : List String)
      → o.instrument_answer ≡ i
      → o.ping_answer ≡ p
      → kafka_cfg.brokers ≡ brokers
      → let (r, (hooks, w)) = wired in Stops r hooks w
  unfolding provide_event_broker_with_claims provide_event_broker invoke_subscribe_mail_commands
      new_broker
  wired_cases (some e) p brokers ei ep eb = rw ei (refl, inl refl)
  wired_cases none (some e) brokers ei ep eb = rw ei (rw ep (refl, inl refl))
  wired_cases none none [] ei ep eb = rw ei (rw ep (rw eb (refl, inr refl)))
  wired_cases none none (address ∷ addresses) ei ep eb = rw ei (
      rw ep (
        rw eb (
          (λ n. cc),
          ap (λ v. v.log)
              (starts_and_stops container (redis_client o).close
                (λ w. (ok tt, note broker_closed w)) (start_background background)
                (stop_background background) (note (redis_opened (redis_options redis_cfg)) idle)
                refl),
        )))

  -- If the wiring of the process succeeds, by what fx documents of hooks, a start and a stop of it
  -- run one consumer, cancel it, close the broker and then close the Redis client, in this order. If
  -- it fails, no consumer runs, and there is no hook that would close the client, unless it is for
  -- want of a Kafka broker.
  pub wired-Stops : let (r, (hooks, w)) = wired in Stops r hooks w
  wired-Stops = wired_cases _ _ _ refl refl refl
