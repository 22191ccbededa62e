-- ===== src/Fx/Messaging.antt =====
-- internal/fx/messaging.go: the construction of the broker. The Redis client, redisotel and the
-- retries of package resilience are parameters.
use Prim.Native.String.{◌++◌}
use ofm_mail_service.Prelude.{String, Option, none, some, ℤ}
use ofm_mail_service.Prelude.Decimal.{decimal}
use ofm_mail_service.Errors.{prefixed}
use ofm_mail_service.Effect.{Result, ok, err, Eff, pure, lift, ◌>>=◌, ◌>>◌}
use ofm_mail_service.Config.{RedisConfig, KafkaConfig}
use ofm_mail_service.EventBroker.{EventBroker}
use ofm_mail_service.Kafka.Broker.{Broker, new_broker}
use ofm_mail_service.Fx.Claims.{Redis, Store, redis_event_store, claiming_broker}
use ofm_mail_service.Fx.Lifecycle.{Hook, Wiring, append, outside}

-- redis.Options
pub record RedisOptions : Type 0 where
  pub addr : String
  pub password : String
  pub db : ℤ

pub record RedisClient (W : Type 0) : Type 0 where
  -- redis.NewClient, which does not connect
  pub new_client : RedisOptions → W → W
  -- redisotel.InstrumentTracing
  pub instrument_tracing : Eff W (Unit {0})
  -- resilience.Retry of Ping
  pub retry_ping : Eff W (Unit {0})
  pub close : Eff W (Unit {0})
  pub commands : Redis W

pub redis_options : RedisConfig → RedisOptions
redis_options cfg = record {
  addr = cfg.host ++ ":" ++ decimal cfg.port;
  password = cfg.password;
  db = cfg.db;
}

abbrev wrapped {ℓ} : {A : Type ℓ} → String → Result A → Result A
wrapped text (ok a) = ok a
wrapped text (err e) = err (prefixed text e)

-- The Kafka broker at its place in the world, with the methods of the interface.
module _ {W Bytes Reader : Type 0} (event_id : String → Bytes → String)
    (event_broker : Broker Reader → EventBroker W Bytes) where
  abbrev pub close_broker : EventBroker W Bytes → Hook W
  close_broker broker = record { on_start = none; on_stop = some (λ w. (ok tt, broker.close w)) }

  unfoldable pub provide_event_broker :
      KafkaConfig → Option (Store W) → Wiring W (EventBroker W Bytes)
  provide_event_broker cfg store = do
    broker ← lift (new_broker cfg)
    append (close_broker (event_broker broker))
    pure (claiming_broker event_id (event_broker broker) store)

  -- ProvideEventBroker
  provide_event_broker_without_claims : KafkaConfig → Wiring W (EventBroker W Bytes)
  unfolding provide_event_broker
  provide_event_broker_without_claims cfg = provide_event_broker cfg none

  module _ (redis : RedisClient W) where
    abbrev checked : String → Eff W (Unit {0}) → Wiring W (Unit {0})
    checked text m = outside (λ w. let (r, w') = m w in (wrapped text r, w'))

    unfoldable pub provide_event_broker_with_claims :
        RedisConfig → KafkaConfig → Wiring W (EventBroker W Bytes)
    unfolding redis_options provide_event_broker
    provide_event_broker_with_claims redis_cfg kafka_cfg = do
      outside (λ w. (ok tt, redis.new_client (redis_options redis_cfg) w))
      checked "instrument redis claims" redis.instrument_tracing
      checked "connect redis claims" redis.retry_ping
      append (record { on_start = none; on_stop = some redis.close })
      provide_event_broker kafka_cfg (some (redis_event_store redis.commands))
