-- ===== src/Fx/Claims/Consuming/Exact.antt =====
-- Deliveries behind the claims of events, over a Redis that keeps working.
use ofm_mail_service.Prelude.{
  ℕ, ◌≡◌, ◌≢◌, ◌≤◌, ◌⊎◌, inl, inr, refl, subst, ◌∙◌, String, List, [], ◌∷◌, Bool, none, true, false,
  ◌==◌, arith, eq_iff, eq_refl, Bool-cases,
}
use ofm_mail_service.Effect.{Result, ok, err}
use ofm_mail_service.EventBroker.{MessageHandler}
use ofm_mail_service.Kafka.Consumer.{Client}
use ofm_mail_service.Kafka.Consumer.Frame.{lifted, run_pull_consumer_preserves}
use ofm_mail_service.Fx.Claims.{
  Redis, event_key, claim_time, redis_event_store, claiming_handler, claimed, settle_claim,
}
use ofm_mail_service.Fx.Claims.Consuming.{
  Ledger, RedisLaws, times, noted, noting, claiming, claiming-IsOnce, sessions, handled-IsOnce,
}

-- Besides: a command changes its own key only, a claim that is not granted changes nothing and is
-- refused only where the key is set, and DEL reaches Redis.
pub record RedisWorks {W : Type 0} (redis : Redis (Ledger × W)) : Type 0 where
  pub set_nx_idle :
      (k v j : String) (s : Ledger × W)
      → (k ≢ j) ⊎ ((redis.set_nx k v claim_time s).0 ≢ ok true)
      → (redis.set_nx k v claim_time s).1.0.keys j ≡ s.0.keys j
  pub set_nx_false :
      (k v : String) (s : Ledger × W)
      → (redis.set_nx k v claim_time s).0 ≡ ok false
      → s.0.keys k ≢ none
  pub set_idle :
      (k v j : String) (s : Ledger × W) → k ≢ j → (redis.set k v 0 s).1.0.keys j ≡ s.0.keys j
  pub del_idle : (k j : String) (s : Ledger × W) → k ≢ j → (redis.del k s).1.0.keys j ≡ s.0.keys j
  pub del_clears : (k : String) (s : Ledger × W) → (redis.del k s).1.0.keys k ≡ none

-- A key that is set belongs to an event that was handled.
abbrev pub IsKnown : String → Ledger → Type 0
IsKnown k l = (l.keys k ≡ none) ⊎ (1 ≤ times k l)

-- The same key and the same list.
IsKnown-same :
    (k : String) (l l' : Ledger)
    → l'.keys k ≡ l.keys k
    → l'.handled ≡ l.handled
    → IsKnown k l
    → IsKnown k l'
IsKnown-same k l l' keys handled (inl unset) = inl (keys ∙ unset)
IsKnown-same k l l' keys handled (inr more) = inr (rw handled more)

module _ {W Bytes : Type 0} (event_id : String → Bytes → String) (redis : Redis (Ledger × W))
    (laws : RedisLaws redis) (works : RedisWorks redis) (h : MessageHandler W Bytes) where
  -- a claimed event, after its handler
  settled-own :
      (id : String) (x : Result (Unit {0}) × (Ledger × W))
      → let (r, s) = noted (event_key id) x in
        IsKnown (event_key id) (settle_claim event_id (redis_event_store redis) id r s).1.0
  unfolding settle_claim redis_event_store
  settled-own id (ok _, (l, w)) = inr (
      rw
        (laws.set_handled (event_key id) "done"
          (record l { handled = event_key id ∷ l.handled }, w))
        (rw (eq_refl (event_key id)) (omega arith)))
  settled-own id (err e, s) = inl (works.del_clears (event_key id) s)

  settled-other :
      (k id : String) (x : Result (Unit {0}) × (Ledger × W))
      → event_key id ≢ k
      → event_key id == k ≡ false
      → IsKnown k x.1.0
      → let (r, s) = noted (event_key id) x in
        IsKnown k (settle_claim event_id (redis_event_store redis) id r s).1.0
  unfolding settle_claim redis_event_store
  settled-other k id (ok _, (l, w)) differ test p =
      let s : Ledger × W = (record l { handled = event_key id ∷ l.handled }, w) in
      IsKnown-same k s.0 (redis.set (event_key id) "done" 0 s).1.0
        (works.set_idle (event_key id) "done" k s differ) (laws.set_handled (event_key id) "done" s)
        (rw test p)
  settled-other k id (err e, s) differ test p =
      IsKnown-same k s.0 (redis.del (event_key id) s).1.0 (works.del_idle (event_key id) k s differ)
        (laws.del_handled (event_key id) s) p

  claimed-IsKnown :
      (k subject : String) (payload : Bytes) (r : Result Bool) (s : Ledger × W)
      → ((event_key (event_id subject payload) ≢ k) ⊎ (r ≢ ok true) → IsKnown k s.0)
      → IsKnown k
          (claimed event_id (redis_event_store redis) (noting event_id h) subject payload r s).1.0
  unfolding claimed
  claimed-IsKnown k subject payload (err e) s p = p (inr (λ n. cc))
  claimed-IsKnown k subject payload (ok false) s p = p (inr (λ n. cc))
  claimed-IsKnown k subject payload (ok true) s p =
      let id = event_id subject payload in
      let x = lifted (h subject payload) s in
      elim (Bool-cases (event_key id == k)) [
        | inl same ↦
            subst
              (λ j.
                IsKnown j
                  (settle_claim event_id (redis_event_store redis) id (noted (event_key id) x).0
                    (noted (event_key id) x).1).1.0)
              ((eq_iff (event_key id) k).0 same) (settled-own id x)
        | inr other ↦
            let differ : event_key id ≢ k = λ e. let same = (eq_iff (event_key id) k).1 e in cc in
            settled-other k id x differ other (p (inl differ))
      ]

  claiming-IsKnown :
      (k subject : String) (payload : Bytes) (s : Ledger × W)
      → IsKnown k s.0
      → IsKnown k (claiming event_id redis laws h subject payload s).1.0
  unfolding claiming_handler redis_event_store
  claiming-IsKnown k subject payload s p =
      let j = event_key (event_id subject payload) in
      claimed-IsKnown k subject payload _ _ (λ idle.
        IsKnown-same k s.0 (redis.set_nx j "processing" claim_time s).1.0
          (works.set_nx_idle j "processing" k s idle) (laws.set_nx_handled j "processing" s) p)

  -- an answer nil, after the claim and its answer
  settled-nil :
      (id : String) (x : Result (Unit {0}) × (Ledger × W))
      → let (r, s) = noted (event_key id) x in
        (settle_claim event_id (redis_event_store redis) id r s).0 ≡ ok tt
        → 1 ≤ times (event_key id) (settle_claim event_id (redis_event_store redis) id r s).1.0
  unfolding settle_claim redis_event_store
  settled-nil id (ok _, (l, w)) nil =
      rw
        (laws.set_handled (event_key id) "done"
          (record l { handled = event_key id ∷ l.handled }, w))
        (rw (eq_refl (event_key id)) (omega arith))
  settled-nil id (err e, s) nil = cc

  claimed-nil :
      (subject : String) (payload : Bytes) (r : Result Bool) (s : Ledger × W)
      → (r ≡ ok false → 1 ≤ times (event_key (event_id subject payload)) s.0)
      → let (answer, s') =
          claimed event_id (redis_event_store redis) (noting event_id h) subject payload r s in
        answer ≡ ok tt → 1 ≤ times (event_key (event_id subject payload)) s'.0
  unfolding claimed
  claimed-nil subject payload (err e) s known nil = cc
  claimed-nil subject payload (ok false) s known nil = known refl
  claimed-nil subject payload (ok true) s known nil =
      settled-nil (event_id subject payload) (lifted (h subject payload) s) nil

  claiming-nil :
      (subject : String) (payload : Bytes) (s : Ledger × W)
      → IsKnown (event_key (event_id subject payload)) s.0
      → let (answer, s') = claiming event_id redis laws h subject payload s in
        answer ≡ ok tt → 1 ≤ times (event_key (event_id subject payload)) s'.0
  unfolding claiming_handler redis_event_store
  claiming-nil subject payload s p nil =
      let j = event_key (event_id subject payload) in
      claimed-nil subject payload _ _
        (λ refused. rw (laws.set_nx_handled j "processing" s) (elim p [
          | inl unset ↦ absurd (works.set_nx_false j "processing" s refused unset)
          | inr more ↦ more
        ]))
        nil

  module _ (client : Client W Bytes) (dead_letter retry_topic subject : String) where
    abbrev pub deliver : MessageHandler (Ledger × W) Bytes
    deliver = claiming event_id redis laws h

    abbrev pub after : List ℕ → W → Ledger × W
    after rounds w =
        sessions event_id redis laws h client dead_letter retry_topic subject rounds
          (record { keys = λ _. none; handled = [] }, w)

    sessions-IsKnown :
        (k : String) (rounds : List ℕ) (s : Ledger × W)
        → IsKnown k s.0
        → IsKnown k
            (sessions event_id redis laws h client dead_letter retry_topic subject rounds s).0
    sessions-IsKnown k [] s p = p
    sessions-IsKnown k (n ∷ later) s p = sessions-IsKnown k later _ (
        run_pull_consumer_preserves client dead_letter retry_topic subject
          (claiming event_id redis laws h) (IsKnown k) (claiming-IsKnown k) n s p)

    -- If Redis keeps working and has no key at first, then after any sessions of the consumer loop
    -- the handler has returned nil exactly once for the event of a delivery that is answered with
    -- nil, up to and with this delivery.
    pub nil_exactly_once :
        (rounds : List ℕ) (w : W) (name : String) (payload : Bytes)
        → (deliver name payload (after rounds w)).0 ≡ ok tt
        → times (event_key (event_id name payload)) (deliver name payload (after rounds w)).1.0 ≡ 1
    nil_exactly_once rounds w name payload nil =
        let k = event_key (event_id name payload) in
        let once = claiming-IsOnce event_id redis laws h k name payload (after rounds w) (
          handled-IsOnce event_id redis laws h client dead_letter retry_topic subject rounds
            (λ _. none) w k) in
        let more =
          claiming-nil name payload (after rounds w)
            (sessions-IsKnown k rounds (record { keys = λ _. none; handled = [] }, w) (inl refl))
            nil in
        elim once [ inl z ↦ omega (arith, z, more) | inr (o, _) ↦ o ]
