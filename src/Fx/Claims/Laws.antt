-- ===== src/Fx/Claims/Laws.antt =====
-- What claims promise, by what Redis documents of its commands.
use ofm_mail_service.Prelude.{
  ◌≡◌, ◌≢◌, ◌∙◌, refl, sym, ap, String, Bool, true, false, Option, none, some,
}
use ofm_mail_service.Errors.{Err}
use ofm_mail_service.Effect.{Result, ok, err}
use ofm_mail_service.EventBroker.{EventBroker, MessageHandler}
use ofm_mail_service.Fx.Claims.{
  Redis, event_key, claim_time, redis_event_store, claiming_handler, claiming_broker, claimed,
  settle_claim,
}

-- Without a store of claims, consumers are given to the broker as they are.
pub claiming_broker-none :
    {W Bytes : Type 0} (event_id : String → Bytes → String) (broker : EventBroker W Bytes)
    → claiming_broker event_id broker none ≡ broker
unfolding claiming_broker claiming_handler
claiming_broker-none event_id broker = refl

-- The value of a key in a world, and what a command that did not fail did to it.
pub record RedisLaws {W : Type 0} (redis : Redis W) (value : W → String → Option String)
    : Type 0 where
  pub set_nx_true :
      (k v : String) (w : W)
      → (redis.set_nx k v claim_time w).0 ≡ ok true
      → (value w k ≡ none) × (value (redis.set_nx k v claim_time w).1 k ≡ some v)
  pub set_nx_false :
      (k v : String) (w : W)
      → (redis.set_nx k v claim_time w).0 ≡ ok false
      → (value w k ≢ none) × (value (redis.set_nx k v claim_time w).1 k ≡ value w k)
  pub set_done :
      (k v : String) (w : W)
      → (redis.set k v 0 w).0 ≡ ok tt
      → value (redis.set k v 0 w).1 k ≡ some v
  pub del_done : (k : String) (w : W) → (redis.del k w).0 ≡ ok tt → value (redis.del k w).1 k ≡ none

module _ {W Bytes : Type 0} (redis : Redis W) (value : W → String → Option String)
    (laws : RedisLaws redis value) (event_id : String → Bytes → String)
    (handler : MessageHandler W Bytes) (subject : String) (payload : Bytes) where
  abbrev key : String
  key = event_key (event_id subject payload)

  abbrev deliver : W → Result (Unit {0}) × W
  deliver = claiming_handler event_id (some (redis_event_store redis)) handler subject payload

  claimed_taken :
      (r : Result Bool) (w : W)
      → r ≢ ok true
      → (claimed event_id (redis_event_store redis) handler subject payload r w).1 ≡ w
  unfolding claimed
  claimed_taken (ok true) w h = absurd (h refl)
  claimed_taken (ok false) w h = refl
  claimed_taken (err e) w h = refl

  abbrev ask : W → Result Bool × W
  ask = redis.set_nx key "processing" claim_time

  -- While an event's key is set, its deliveries do nothing but ask for the claim: the handler is
  -- not called.
  taken_is_skipped : (w : W) → value w key ≢ none → (deliver w).1 ≡ (ask w).1
  unfolding claiming_handler redis_event_store
  taken_is_skipped w h = claimed_taken _ _ (λ e. h ((laws.set_nx_true key "processing" w e).0))

  settled_blocks :
      (r : Result (Unit {0})) (w : W)
      → (settle_claim event_id (redis_event_store redis) (event_id subject payload) r w).0 ≡ ok tt
      → value (settle_claim event_id (redis_event_store redis) (event_id subject payload) r w).1 key
        ≡ some "done"
  unfolding settle_claim redis_event_store
  settled_blocks (err e) w h = cc
  settled_blocks (ok _) w h = laws.set_done key "done" w h

  claimed_blocks :
      (r : Result Bool) (w : W)
      → (r ≡ ok false → value w key ≢ none)
      → (claimed event_id (redis_event_store redis) handler subject payload r w).0 ≡ ok tt
      → value (claimed event_id (redis_event_store redis) handler subject payload r w).1 key ≢ none
  unfolding claimed
  claimed_blocks (err e) w f h = cc
  claimed_blocks (ok false) w f h = f refl
  claimed_blocks (ok true) w f h =
      λ n. cc (settled_blocks (handler subject payload w).0 (handler subject payload w).1 h, n)

  success_blocks : (w : W) → (deliver w).0 ≡ ok tt → value (deliver w).1 key ≢ none
  unfolding claiming_handler redis_event_store
  success_blocks w h =
      claimed_blocks (ask w).0 (ask w).1
        (λ e n.
          let (some_before, same) = laws.set_nx_false key "processing" w e in
          some_before (sym same ∙ n))
        h

  -- After a delivery that returned nil, the handler is not called again for the event as long as
  -- its key keeps its value: a later delivery leaves the world as the question for the claim does.
  pub handled_at_most_once :
      (w w' : W)
      → (deliver w).0 ≡ ok tt
      → value w' key ≡ value (deliver w).1 key
      → (deliver w').1 ≡ (ask w').1
  handled_at_most_once w w' h same = taken_is_skipped w' (λ n. success_blocks w h (sym same ∙ n))

  abbrev after : W → W
  after w = (handler subject payload (ask w).1).1

  -- a delivery whose claim is granted and whose handler fails
  module _ (w : W) (e : Err) (granted : (ask w).0 ≡ ok true)
      (fails : (handler subject payload (ask w).1).0 ≡ err e) where
    failed_delivery : deliver w ≡ (err e, (redis.del key (after w)).1)
    unfolding claiming_handler redis_event_store claimed settle_claim
    failed_delivery = rw granted (rw fails refl)

    -- Where a claimed event's handler fails, its error is returned; and if the release worked, the
    -- claim of a later delivery is not refused as long as the key is left alone.
    pub failure_frees :
        (w' : W)
        → (redis.del key (after w)).0 ≡ ok tt
        → value w' key ≡ value (deliver w).1 key
        → ((deliver w).0 ≡ err e) × ((ask w').0 ≢ ok false)
    failure_frees w' released same =
        let freed = laws.del_done key (after w) released in
        let moved = ap (λ (r : Result (Unit {0}) × W). value r.1 key) failed_delivery in
        (
          ap (λ (r : Result (Unit {0}) × W). r.0) failed_delivery,
          λ refused. (laws.set_nx_false key "processing" w' refused).0 (same ∙ moved ∙ freed),
        )

    -- Where a claimed event's handler fails and the release leaves the key set, a later delivery
    -- that finds the key so and is answered by Redis returns nil without calling the handler.
    pub failure_loses :
        (w' : W) (b : Bool)
        → value (redis.del key (after w)).1 key ≢ none
        → value w' key ≡ value (deliver w).1 key
        → (ask w').0 ≡ ok b
        → deliver w' ≡ (ok tt, (ask w').1)
    unfolding claiming_handler redis_event_store claimed
    failure_loses w' true kept same asked =
        let moved = ap (λ (r : Result (Unit {0}) × W). value r.1 key) failed_delivery in
        absurd (kept (sym moved ∙ sym same ∙ (laws.set_nx_true key "processing" w' asked).0))
    failure_loses w' false kept same asked = rw asked refl
