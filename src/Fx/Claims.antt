-- ===== src/Fx/Claims.antt =====
-- internal/fx/messaging.go: the broker that claims each event in Redis before it is handled. The
-- Redis client and the decoding of event ids are parameters.
pub mod Laws
pub mod Consuming
pub mod Resending
pub mod Processes
pub mod Covering
pub mod Sending
mod Tests
use Prim.Native.String.{◌++◌}
use ofm_mail_service.Prelude.{ℕ, ◌*◌, String, Bool, true, false, Option, none, some}
use ofm_mail_service.Effect.{Result, ok, err, Eff, pure, attempt}
use ofm_mail_service.EventBroker.{EventBroker, MessageHandler}

-- The commands SETNX, SET and DEL of the Redis client; durations are nanoseconds, and 0 is for ever.
pub record Redis (W : Type 0) : Type 0 where
  pub set_nx : String → String → ℕ → Eff W Bool
  pub set : String → String → ℕ → Eff W (Unit {0})
  pub del : String → Eff W (Unit {0})

-- idempotency.Store. That a store can complete an event is found out by a type assertion.
pub record Store (W : Type 0) : Type 0 where
  pub claim : String → Eff W Bool
  pub release : String → Eff W (Unit {0})
  pub complete : Option (String → Eff W (Unit {0}))

unfoldable pub event_key : String → String
event_key event_id = "mail:processed_events:" ++ event_id

abbrev pub claim_time : ℕ
claim_time = 15 * 60 * 1_000_000_000

-- redisEventStore
unfoldable pub redis_event_store : {W : Type 0} → Redis W → Store W
redis_event_store redis = record {
  claim = λ event_id. redis.set_nx (event_key event_id) "processing" claim_time;
  release = λ event_id. redis.del (event_key event_id);
  complete = some (λ event_id. redis.set (event_key event_id) "done" 0);
}

module _ {W Bytes : Type 0} (event_id : String → Bytes → String) where
  -- what follows a claimed event's handler
  settle_claim : Store W → String → Result (Unit {0}) → Eff W (Unit {0})
  settle_claim store id (err e) = attempt (store.release id) λ _ w. (err e, w)
  settle_claim store id (ok _) = elim store.complete [
    | some complete ↦ complete id
    | none ↦ pure tt
  ]

  -- what follows `Claim`
  claimed : Store W → MessageHandler W Bytes → String → Bytes → Result Bool → Eff W (Unit {0})
  claimed store handler subject payload (err e) w = (err e, w)
  claimed store handler subject payload (ok false) w = (ok tt, w)
  claimed store handler subject payload (ok true) w =
      attempt (handler subject payload) (settle_claim store (event_id subject payload)) w

  -- the handler that `claimingBroker.RunPullConsumer` hands to the broker
  pub claiming_handler : Option (Store W) → MessageHandler W Bytes → MessageHandler W Bytes
  claiming_handler none handler subject payload = handler subject payload
  claiming_handler (some store) handler subject payload =
      attempt (store.claim (event_id subject payload)) (claimed store handler subject payload)

  -- claimingBroker: the other methods are those of the broker inside.
  unfoldable pub claiming_broker : EventBroker W Bytes → Option (Store W) → EventBroker W Bytes
  claiming_broker broker store = record broker {
    run_pull_consumer =
        λ cfg handler. broker.run_pull_consumer cfg (claiming_handler store handler);
  }
