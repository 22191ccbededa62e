-- ===== src/Fx/Claims/Resending/Tests.antt =====
-- A command whose result cannot be published: the broker refuses every message.
use ofm_mail_service.Prelude.{◌+◌, ◌≡◌, refl, String, [], Option, some, true}
use ofm_mail_service.Errors.{Err, foreign, other}
use ofm_mail_service.Effect.{Result, ok, err}
use ofm_mail_service.Config.Defaults.{default_kafka_config}
use ofm_mail_service.EventBroker.Trace.{Trace, Outside}
use ofm_mail_service.Kafka.Mapper.{new_mail_mapper}
use ofm_mail_service.Kafka.Reason.{send_mail_failure_reason}
use ofm_mail_service.Kafka.Subscriber.{handle}
use ofm_mail_service.Kafka.Subscriber.Tests.{command, outside}
use ofm_mail_service.Fx.Claims.{
  Redis, event_key, claiming_handler, claimed, settle_claim, redis_event_store,
}
use ofm_mail_service.Fx.Claims.Laws.{RedisLaws}
use ofm_mail_service.Fx.Claims.Tests.{World, redis, redis_laws, absent, event_id}
use ofm_mail_service.Fx.Claims.Resending.{requests, Apart, deliver, failure_resends}

abbrev refused : Err
refused = foreign other "kafka: leader not available"

abbrev silent : Outside String String
silent = record outside { broker_answer = λ _. some refused }

abbrev S : Type 0
S = World × Trace String String

abbrev beside : Redis S
beside = record {
  set_nx = λ k v time (m, t). let (r, m') = (redis (ok tt)).set_nx k v time m in (r, (m', t));
  set = λ k v time (m, t). let (r, m') = (redis (ok tt)).set k v time m in (r, (m', t));
  del = λ k (m, t). let (r, m') = (redis (ok tt)).del k m in (r, (m', t));
}

apart : Apart beside
apart = record { set_nx_apart = λ k v s. refl; set_apart = λ k v s. refl; del_apart = λ k s. refl }

beside_value : S → String → Option String
beside_value s k = s.0 k

beside_laws : RedisLaws beside beside_value
unfolding beside_value
beside_laws = record {
  set_nx_true = λ k v s. (redis_laws (ok tt)).set_nx_true k v s.0;
  set_nx_false = λ k v s. (redis_laws (ok tt)).set_nx_false k v s.0;
  set_done = λ k v s. (redis_laws (ok tt)).set_done k v s.0;
  del_done = λ k s. (redis_laws (ok tt)).del_done k s.0;
}

abbrev delivered : S → Result (Unit {0}) × S
delivered =
    deliver silent default_kafka_config send_mail_failure_reason "mail.send" "e1" command refl
      beside apart event_id

abbrev start : S
start = (absent, [])

failure_resends_example :
    ((delivered start).0 ≡ err refused) × (requests (delivered (delivered start).1).1.1 ≡ 0 + 2)
unfolding handle claiming_handler claimed redis_event_store settle_claim event_key new_mail_mapper
failure_resends_example =
    failure_resends silent default_kafka_config send_mail_failure_reason "mail.send" "e1" command
      refl beside apart event_id beside_value beside_laws start refused true refl refl refl refl
