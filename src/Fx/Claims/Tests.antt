-- ===== src/Fx/Claims/Tests.antt =====
-- A Redis that is a map, and one whose DEL fails.
use ofm_mail_service.Prelude.{
  ◌≡◌, ◌≢◌, refl, String, Bool, true, false, Option, none, some, ◌==◌, if◌then◌else◌, eq_refl,
}
use ofm_mail_service.Errors.{foreign, other}
use ofm_mail_service.Effect.{Result, ok, err}
use ofm_mail_service.EventBroker.{MessageHandler}
use ofm_mail_service.Fx.Claims.{
  Redis, event_key, claim_time, redis_event_store, claiming_handler, claimed, settle_claim,
}
use ofm_mail_service.Fx.Claims.Laws.{RedisLaws, failure_loses}

-- The values of the keys, and nothing else.
abbrev pub World : Type 0
World = String → Option String

abbrev put : String → Option String → World → World
put k v w asked = if k == asked then v else w asked

abbrev claim_answer : Option String → String → String → World → Result Bool × World
claim_answer none k v w = (ok true, put k (some v) w)
claim_answer (some u) k v w = (ok false, w)

-- a Redis that deletes, or not
abbrev pub redis : Result (Unit {0}) → Redis World
redis deleted = record {
  set_nx = λ k v _ w. claim_answer (w k) k v w;
  set = λ k v _ w. (ok tt, put k (some v) w);
  del = λ k w. elim deleted [ ok _ ↦ (ok tt, put k none w) | err e ↦ (err e, w) ];
}

abbrev pub value : World → String → Option String
value w k = w k

put_same : (k : String) (v : Option String) (w : World) → put k v w k ≡ v
put_same k v w = rw (eq_refl k)

granted_claim :
    (o : Option String) (k v : String) (w : World)
    → w k ≡ o
    → (claim_answer o k v w).0 ≡ ok true
    → (w k ≡ none) × ((claim_answer o k v w).1 k ≡ some v)
granted_claim none k v w e h = (e, put_same k (some v) w)
granted_claim (some u) k v w e h = cc

refused_claim :
    (o : Option String) (k v : String) (w : World)
    → w k ≡ o
    → (claim_answer o k v w).0 ≡ ok false
    → (w k ≢ none) × ((claim_answer o k v w).1 k ≡ w k)
refused_claim none k v w e h = cc
refused_claim (some u) k v w e h = (λ n. cc, refl)

pub redis_laws : (deleted : Result (Unit {0})) → RedisLaws (redis deleted) value
redis_laws (ok _) = record {
  set_nx_true = λ k v w. granted_claim (w k) k v w refl;
  set_nx_false = λ k v w. refused_claim (w k) k v w refl;
  set_done = λ k v w h. put_same k (some v) w;
  del_done = λ k w h. put_same k none w;
}
redis_laws (err e) = record {
  set_nx_true = λ k v w. granted_claim (w k) k v w refl;
  set_nx_false = λ k v w. refused_claim (w k) k v w refl;
  set_done = λ k v w h. put_same k (some v) w;
  del_done = λ k w h. cc;
}

abbrev pub event_id : String → String → String
event_id subject payload = payload

abbrev pub absent : World
absent _ = none

abbrev accepting : MessageHandler World String
accepting _ _ w = (ok tt, w)

abbrev failing : MessageHandler World String
failing _ _ w = (err (foreign other "no route"), w)

abbrev deliver : Result (Unit {0}) → MessageHandler World String → World → Result (Unit {0}) × World
deliver deleted handler =
    claiming_handler event_id (some (redis_event_store (redis deleted))) handler "mail.send" "e1"

abbrev ask : Result (Unit {0}) → World → Result Bool × World
ask deleted = (redis deleted).set_nx (event_key "e1") "processing" claim_time

is_handled : (deliver (ok tt) accepting absent).0 ≡ ok tt
unfolding claiming_handler claimed settle_claim redis_event_store
is_handled = refl

abbrev broken : Result (Unit {0})
broken = err (foreign other "connection reset")

abbrev after_failure : World
after_failure = (deliver broken failing absent).1

is_asked : (ask broken after_failure).0 ≡ ok false
unfolding claiming_handler claimed settle_claim redis_event_store event_key
is_asked = refl

is_kept : ((redis broken).del (event_key "e1") (ask broken absent).1).1 (event_key "e1") ≢ none
unfolding event_key
is_kept = λ n. cc

failure_loses_example : deliver broken failing after_failure ≡ (ok tt, (ask broken after_failure).1)
failure_loses_example =
    failure_loses (redis broken) value (redis_laws broken) event_id failing "mail.send" "e1" absent
      (foreign other "no route") refl refl after_failure false is_kept refl is_asked
