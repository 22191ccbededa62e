-- ===== src/Fx/Claims/Resending.antt =====
-- The handler of kafka/mail_command_subscriber.go behind the claims of fx/messaging.go: how often a
-- command is given to the mail service.
mod Tests
use ofm_mail_service.Prelude.{
  ℕ, suc, ◌+◌, ◌≡◌, ◌∙◌, refl, sym, ap, String, List, [], ◌∷◌, Bool, Option, none, some, true,
  false, arith,
}
use ofm_mail_service.Errors.{Err}
use ofm_mail_service.Effect.{Result, ok, err}
use ofm_mail_service.Config.{KafkaConfig}
use ofm_mail_service.EventBroker.{MessageHandler}
use ofm_mail_service.EventBroker.Commands.{SendMailCommand}
use ofm_mail_service.EventBroker.Trace.{Call, sent, published, Trace, Outside}
use ofm_mail_service.Kafka.Consumer.Frame.{lifted}
use ofm_mail_service.Kafka.Subscriber.{handle}
use ofm_mail_service.Kafka.Subscriber.Handling.{
  subscriber, Handled, undecodable, unencodable, answered, handle-Handled,
}
use ofm_mail_service.Fx.Claims.{
  Redis, event_key, claim_time, redis_event_store, claiming_handler, claimed, settle_claim,
}
use ofm_mail_service.Fx.Claims.Laws.{RedisLaws, failure_frees}

-- how many requests the mail service was given
abbrev pub requests : {Data Payload : Type 0} → Trace Data Payload → ℕ
requests [] = 0
requests (sent req ∷ t) = suc (requests t)
requests (published topic payload ∷ t) = requests t

-- Redis has a world of its own beside another one.
pub record Apart {K T : Type 0} (redis : Redis (K × T)) : Type 0 where
  pub set_nx_apart : (k v : String) (s : K × T) → (redis.set_nx k v claim_time s).1.1 ≡ s.1
  pub set_apart : (k v : String) (s : K × T) → (redis.set k v 0 s).1.1 ≡ s.1
  pub del_apart : (k : String) (s : K × T) → (redis.del k s).1.1 ≡ s.1

module _ {Data Payload : Type 0} (o : Outside Data Payload) (cfg : KafkaConfig)
    (reason : Err → String) (subject : String) (payload : Payload) (cmd : SendMailCommand Data)
    (decodes : o.unmarshal payload ≡ ok cmd) where
  Handled-requests :
      (t : Trace Data Payload) (r : Result (Unit {0})) (t' : Trace Data Payload)
      → Handled o cfg reason payload t r t'
      → requests t' ≡ suc (requests t)
  Handled-requests t r t' (undecodable x e) = cc
  Handled-requests t r t' (unencodable c x e m) = refl
  Handled-requests t r t' (answered c bytes e m) = refl

  abbrev run : Trace Data Payload → Result (Unit {0}) × Trace Data Payload
  run = handle (subscriber o cfg reason) subject payload

  handle-requests : (t : Trace Data Payload) → requests (run t).1 ≡ suc (requests t)
  handle-requests t =
      Handled-requests t (run t).0 (run t).1 (handle-Handled o cfg reason payload t subject)

  module _ {K : Type 0} (redis : Redis (K × Trace Data Payload)) (apart : Apart redis)
      (event_id : String → Payload → String) where
    abbrev pub mail_handler : MessageHandler (K × Trace Data Payload) Payload
    mail_handler topic bytes = lifted (handle (subscriber o cfg reason) topic bytes)

    abbrev pub deliver : K × Trace Data Payload → Result (Unit {0}) × (K × Trace Data Payload)
    deliver =
        claiming_handler event_id (some (redis_event_store redis)) mail_handler subject payload

    abbrev key : String
    key = event_key (event_id subject payload)

    abbrev pub ask : K × Trace Data Payload → Result Bool × (K × Trace Data Payload)
    ask = redis.set_nx key "processing" claim_time

    settled-requests :
        (r : Result (Unit {0})) (s : K × Trace Data Payload)
        → requests
            (settle_claim event_id (redis_event_store redis) (event_id subject payload) r s).1.1
          ≡ requests s.1
    unfolding settle_claim redis_event_store
    settled-requests (ok _) s = ap requests (apart.set_apart key "done" s)
    settled-requests (err e) s = ap requests (apart.del_apart key s)

    -- A claim that is granted gives the command to the mail service once.
    granted-requests :
        (s : K × Trace Data Payload)
        → (ask s).0 ≡ ok true
        → requests (deliver s).1.1 ≡ suc (requests s.1)
    unfolding claiming_handler redis_event_store claimed
    granted-requests s granted = rw granted (
        settled-requests _ _
        ∙ handle-requests (ask s).1.1
        ∙ ap (λ t. suc (requests t)) (apart.set_nx_apart key "processing" s))

    -- A command that was claimed and decoded, whose handler failed all the same, so that its result
    -- was not published, and whose release worked: it is given to the mail service once more by the
    -- next delivery that Redis answers, whatever the service did the first time.
    pub failure_resends :
        (value : K × Trace Data Payload → String → Option String) (laws : RedisLaws redis value)
        (s : K × Trace Data Payload) (e : Err) (b : Bool)
        → (ask s).0 ≡ ok true
        → (mail_handler subject payload (ask s).1).0 ≡ err e
        → (redis.del key (mail_handler subject payload (ask s).1).1).0 ≡ ok tt
        → (ask (deliver s).1).0 ≡ ok b
        → ((deliver s).0 ≡ err e) × (requests (deliver (deliver s).1).1.1 ≡ requests s.1 + 2)
    failure_resends value laws s e true granted fails released again =
        let (failed, free) =
          failure_frees redis value laws event_id mail_handler subject payload s e granted fails
            (deliver s).1 released refl in
        (failed, omega (arith, granted-requests s granted, granted-requests (deliver s).1 again))
    failure_resends value laws s e false granted fails released again =
        let (failed, free) =
          failure_frees redis value laws event_id mail_handler subject payload s e granted fails
            (deliver s).1 released refl in
        absurd (free again)
