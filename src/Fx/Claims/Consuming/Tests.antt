-- ===== src/Fx/Claims/Consuming/Tests.antt =====
-- A reader that delivers the same message again and again, and a Redis that is a map.
use ofm_mail_service.Prelude.{
  ℕ, suc, ◌⊎◌, ◌≡◌, ◌≢◌, refl, String, Bool, true, false, Option, none, some, ◌==◌, if◌then◌else◌,
  [], ◌∷◌, pos, eq_refl, eq_iff, Bool-cases, inl, inr,
}
use ofm_mail_service.Effect.{Result, ok}
use ofm_mail_service.EventBroker.{MessageHandler}
use ofm_mail_service.Kafka.Consumer.{Client}
use ofm_mail_service.Fx.Claims.{
  Redis, event_key, claiming_handler, claimed, settle_claim, redis_event_store,
}
use ofm_mail_service.Fx.Claims.Consuming.{
  Ledger, RedisLaws, IsOnce, times, sessions, handled-IsOnce,
}
use ofm_mail_service.Fx.Claims.Consuming.Exact.{RedisWorks, deliver, after, nil_exactly_once}

abbrev pub put : {W : Type 0} → String → Option String → Ledger × W → Ledger × W
put k v (l, n) = (record l { keys = λ j. if k == j then v else l.keys j }, n)

abbrev pub claim_answer :
    {W : Type 0} → Option String → String → String → Ledger × W → Result Bool × (Ledger × W)
claim_answer none k v s = (ok true, put k (some v) s)
claim_answer (some u) k v s = (ok false, s)

abbrev pub redis : {W : Type 0} → Redis (Ledger × W)
redis = record {
  set_nx = λ k v _ s. claim_answer (s.0.keys k) k v s;
  set = λ k v _ s. (ok tt, put k (some v) s);
  del = λ k s. (ok tt, put k none s);
}

put_clears_none :
    {W : Type 0} (k v j : String) (s : Ledger × W)
    → s.0.keys j ≢ none
    → (put k (some v) s).0.keys j ≢ none
put_clears_none k v j s h = elim (Bool-cases (k == j)) [
  | inl same ↦ rw same (λ n. cc)
  | inr other ↦ rw other h
]

granted :
    {W : Type 0} (o : Option String) (k v : String) (s : Ledger × W)
    → s.0.keys k ≡ o
    → (claim_answer o k v s).0 ≡ ok true
    → (s.0.keys k ≡ none) × ((claim_answer o k v s).1.0.keys k ≢ none)
granted none k v s e h = (e, rw (eq_refl k) (λ n. cc))
granted (some u) k v s e h = cc

asked_clears_none :
    {W : Type 0} (o : Option String) (k v j : String) (s : Ledger × W)
    → s.0.keys j ≢ none
    → (claim_answer o k v s).1.0.keys j ≢ none
asked_clears_none none k v j s h = put_clears_none k v j s h
asked_clears_none (some u) k v j s h = h

asked_handled :
    {W : Type 0} (o : Option String) (k v : String) (s : Ledger × W)
    → (claim_answer o k v s).1.0.handled ≡ s.0.handled
asked_handled none k v s = refl
asked_handled (some u) k v s = refl

del_clears_one :
    {W : Type 0} (k j : String) (s : Ledger × W)
    → k ≢ j
    → s.0.keys j ≢ none
    → (put k none s).0.keys j ≢ none
del_clears_one k j s differ h = elim (Bool-cases (k == j)) [
  | inl same ↦ absurd (differ ((eq_iff k j).0 same))
  | inr other ↦ rw other h
]

pub redis_laws : {W : Type 0} → RedisLaws {W = W} redis
redis_laws = record {
  set_nx_true = λ k v s. granted (s.0.keys k) k v s refl;
  set_nx_clears_none = λ k v j s. asked_clears_none (s.0.keys k) k v j s;
  set_clears_none = put_clears_none;
  del_clears_one = del_clears_one;
  set_nx_handled = λ k v s. asked_handled (s.0.keys k) k v s;
  set_handled = λ k v s. refl;
  del_handled = λ k s. refl;
}

abbrev pub client : Client ℕ String
client = record {
  fetch_message = λ n. (
    ok (record { key = "k"; value = "e1"; headers = []; partition = pos 0; offset = pos 7 }),
    suc n,
  );
  commit_messages = λ msg n. (ok tt, n);
  write_message = λ topic msg n. (ok tt, n);
  enqueue = λ topic msg subject attempt e n. (ok tt, n);
  unwrap = λ value. ok value;
  marshal_dlq = λ r. ok r.error;
  type_name = λ e. "*errors.errorString";
  now = λ n. ("2026-01-01T00:00:00Z", n);
  max_attempts = 5;
}

abbrev handler : MessageHandler ℕ String
handler subject payload n = (ok tt, n)

abbrev event_id : String → String → String
event_id subject payload = payload

handled-IsOnce_example :
    IsOnce
      (event_key "e1")
      (sessions event_id redis redis_laws handler client "mail.dlq" "mail.retry" "mail.send"
        (3 ∷ 2 ∷ [])
        (record { keys = λ _. none; handled = [] }, 0)).0
handled-IsOnce_example =
    handled-IsOnce event_id redis redis_laws handler client "mail.dlq" "mail.retry" "mail.send"
      (3 ∷ 2 ∷ []) (λ _. none) 0 (event_key "e1")

put_idle :
    {W : Type 0} (k : String) (v : Option String) (j : String) (s : Ledger × W)
    → k ≢ j
    → (put k v s).0.keys j ≡ s.0.keys j
put_idle k v j s differ = elim (Bool-cases (k == j)) [
  | inl same ↦ absurd (differ ((eq_iff k j).0 same))
  | inr other ↦ rw other refl
]

asked_idle :
    {W : Type 0} (o : Option String) (k v j : String) (s : Ledger × W)
    → (k ≢ j) ⊎ ((claim_answer o k v s).0 ≢ ok true)
    → (claim_answer o k v s).1.0.keys j ≡ s.0.keys j
asked_idle none k v j s (inl differ) = put_idle k (some v) j s differ
asked_idle none k v j s (inr refused) = absurd (refused refl)
asked_idle (some u) k v j s idle = refl

asked_false :
    {W : Type 0} (o : Option String) (k v : String) (s : Ledger × W)
    → s.0.keys k ≡ o
    → (claim_answer o k v s).0 ≡ ok false
    → s.0.keys k ≢ none
asked_false none k v s e h = cc
asked_false (some u) k v s e h = λ n. cc

redis_works : {W : Type 0} → RedisWorks {W = W} redis
redis_works = record {
  set_nx_idle = λ k v j s. asked_idle (s.0.keys k) k v j s;
  set_nx_false = λ k v s. asked_false (s.0.keys k) k v s refl;
  set_idle = λ k v j s. put_idle k (some v) j s;
  del_idle = λ k j s. put_idle k none j s;
  del_clears = λ k s. rw (eq_refl k) refl;
}

abbrev later : Ledger × ℕ
later =
    after event_id redis redis_laws redis_works handler client "mail.dlq" "mail.retry" "mail.send"
      (3 ∷ []) 0

abbrev deliver_again : Ledger × ℕ → Result (Unit {0}) × (Ledger × ℕ)
deliver_again =
    deliver event_id redis redis_laws redis_works handler client "mail.dlq" "mail.retry" "mail.send"
      "mail.send" "e1"

answered :
    (o : Option String) (s : Ledger × ℕ)
    → s.0.keys (event_key "e1") ≡ o
    → (deliver_again s).0 ≡ ok tt
unfolding claiming_handler claimed settle_claim redis_event_store
answered none s e = rw e refl
answered (some v) s e = rw e refl

nil_exactly_once_example : times (event_key "e1") (deliver_again later).1.0 ≡ 1
nil_exactly_once_example =
    nil_exactly_once event_id redis redis_laws redis_works handler client "mail.dlq" "mail.retry"
      "mail.send" (3 ∷ []) 0 "mail.send" "e1" (answered _ later refl)
