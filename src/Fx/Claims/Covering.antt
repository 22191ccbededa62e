-- ===== src/Fx/Claims/Covering.antt =====
-- The consumer loop of kafka/broker.go with a handler behind the claims of fx/messaging.go: an effect
-- that comes with a return of nil.
use ofm_mail_service.Prelude.{
  ℕ, suc, ◌≤◌, ◌≡◌, ◌⊎◌, inl, inr, String, List, [], ◌∷◌, Bool, Option, true, false, ◌==◌, arith,
  eq_iff, Bool-cases,
}
use ofm_mail_service.Effect.{Result, ok, err}
use ofm_mail_service.EventBroker.{MessageHandler}
use ofm_mail_service.Kafka.Consumer.{Client}
use ofm_mail_service.Kafka.Consumer.Frame.{lifted_client}
use ofm_mail_service.Kafka.Consumer.Invariant.{run_invariant}
use ofm_mail_service.Fx.Claims.{
  Redis, event_key, claim_time, redis_event_store, claiming_handler, claimed, settle_claim,
}
use ofm_mail_service.Fx.Claims.Consuming.{
  Ledger, RedisLaws, times, noted, noting, claiming, sessions, handled-IsOnce,
}
use ofm_mail_service.Fx.Claims.Resending.{Apart}

-- What the claims and the handler preserve, the handler that claims preserves.
module _ {ℓ} {W Bytes : Type 0} (event_id : String → Bytes → String) (redis : Redis (Ledger × W))
    (laws : RedisLaws redis) (h : MessageHandler W Bytes) (P : Ledger × W → Type ℓ)
    (asks : (k v : String) (s : Ledger × W) → P s → P (redis.set_nx k v claim_time s).1)
    (sets : (k v : String) (s : Ledger × W) → P s → P (redis.set k v 0 s).1)
    (clears : (k : String) (s : Ledger × W) → P s → P (redis.del k s).1)
    (handles : (subject : String) (payload : Bytes) (s : Ledger × W)
      → P s
      → P (noting event_id h subject payload s).1) where
  settle_preserves :
      (id : String) (r : Result (Unit {0})) (s : Ledger × W)
      → P s
      → P (settle_claim event_id (redis_event_store redis) id r s).1
  unfolding settle_claim redis_event_store
  settle_preserves id (ok _) s p = sets (event_key id) "done" s p
  settle_preserves id (err e) s p = clears (event_key id) s p

  claimed_preserves :
      (subject : String) (payload : Bytes) (r : Result Bool) (s : Ledger × W)
      → P s
      → P (claimed event_id (redis_event_store redis) (noting event_id h) subject payload r s).1
  unfolding claimed
  claimed_preserves subject payload (err e) s p = p
  claimed_preserves subject payload (ok false) s p = p
  claimed_preserves subject payload (ok true) s p =
      settle_preserves (event_id subject payload) _ _ (handles subject payload s p)

  claiming_preserves :
      (subject : String) (payload : Bytes) (s : Ledger × W)
      → P s
      → P (claiming event_id redis laws h subject payload s).1
  unfolding claiming_handler redis_event_store
  claiming_preserves subject payload s p =
      claimed_preserves subject payload _ _
        (asks (event_key (event_id subject payload)) "processing" s p)

-- A handler in a world of its own, beside the world of the reader, and a measure of its world.
module _ {T K Bytes : Type 0} (h : MessageHandler T Bytes) where
  abbrev pub beside_reader : MessageHandler (T × K) Bytes
  beside_reader subject payload (t, r) = let (answer, t') = h subject payload t in (answer, (t', r))

-- What the handler preserves of its own world, the sessions preserve.
module _ {T K Bytes : Type 0} (event_id : String → Bytes → String) (h : MessageHandler T Bytes)
    (P : T → Type 0)
    (keeps : (subject : String) (payload : Bytes) (t : T) → P t → P (h subject payload t).1) where
  noted-keeps :
      (j : String) (l : Ledger) (r : Result (Unit {0})) (t : T) (κ : K)
      → P t
      → P (noted {W = T × K} j (r, (l, (t, κ)))).1.1.0
  noted-keeps j l (ok _) t κ p = p
  noted-keeps j l (err e) t κ p = p

  module _ (redis : Redis (Ledger × (T × K))) (laws : RedisLaws redis) (apart : Apart redis)
      (client : Client K Bytes) (dead_letter retry_topic topic : String) where
    abbrev Kept : Ledger × (T × K) → Type 0
    Kept s = P s.1.0

    apart-Kept : (s s' : Ledger × (T × K)) → s'.1 ≡ s.1 → Kept s → Kept s'
    apart-Kept s s' same p = rw same p

    claiming-Kept :
        (subject : String) (payload : Bytes) (s : Ledger × (T × K))
        → Kept s
        → Kept (claiming event_id redis laws (beside_reader h) subject payload s).1
    claiming-Kept =
        claiming_preserves event_id redis laws (beside_reader h) Kept
          (λ j v s. apart-Kept s (redis.set_nx j v claim_time s).1 (apart.set_nx_apart j v s))
          (λ j v s. apart-Kept s (redis.set j v 0 s).1 (apart.set_apart j v s))
          (λ j s. apart-Kept s (redis.del j s).1 (apart.del_apart j s))
          (λ subject payload s p.
            noted-keeps (event_key (event_id subject payload)) s.0 (h subject payload s.1.0).0
              (h subject payload s.1.0).1 s.1.1 (keeps subject payload s.1.0 p))

    pub sessions_keep :
        (rounds : List ℕ) (s : Ledger × (T × K))
        → Kept s
        → Kept (
            sessions event_id redis laws
              (beside_reader h)
              (lifted_client client)
              dead_letter
              retry_topic
              topic
              rounds
              s)
    sessions_keep [] s p = p
    sessions_keep (n ∷ later) s p = sessions_keep later _ (
        run_invariant Kept (lifted_client (lifted_client client))
          (record {
            fetch = λ s p. p;
            commit = λ msg s p. p;
            write = λ topic msg s p. p;
            enqueue = λ topic msg subject n e s p. p;
            now = λ s p. p;
          })
          dead_letter retry_topic topic (claiming event_id redis laws (beside_reader h))
          claiming-Kept n s p)

-- A call of the handler raises the measure by one at most, and only with a return of nil for an
-- event with the key `k`.
abbrev pub Costs :
    {T Bytes : Type 0}
    → (String → Bytes → String)
    → MessageHandler T Bytes
    → (T → ℕ)
    → String
    → Type 0
Costs {T} {Bytes} event_id h measure k =
    (subject : String) (payload : Bytes) (t : T)
    → let (r, t') = h subject payload t in
      (measure t' ≡ measure t)
      ⊎ ((r ≡ ok tt) × (event_key (event_id subject payload) ≡ k) × (measure t' ≡ suc (measure t)))

module _ {T K Bytes : Type 0} (event_id : String → Bytes → String) (h : MessageHandler T Bytes)
    (measure : T → ℕ) (k : String) (costs : Costs event_id h measure k) where
  abbrev IsCovered : Ledger × (T × K) → Type 0
  IsCovered (l, (t, r)) = measure t ≤ times k l

  noted-IsCovered :
      (j : String) (l : Ledger) (t : T) (r : Result (Unit {0})) (t' : T) (κ : K)
      → measure t ≤ times k l
      → (measure t' ≡ measure t) ⊎ ((r ≡ ok tt) × (j ≡ k) × (measure t' ≡ suc (measure t)))
      → IsCovered (noted j (r, (l, (t', κ)))).1
  noted-IsCovered j l t (err e) t' κ p (inl same) = omega arith
  noted-IsCovered j l t (err e) t' κ p (inr (nil, own, more)) = cc
  noted-IsCovered j l t (ok _) t' κ p (inl same) = elim (Bool-cases (j == k)) [
    | inl own ↦ rw own (omega arith)
    | inr other ↦ rw other (omega arith)
  ]
  noted-IsCovered j l t (ok _) t' κ p (inr (nil, own, more)) = rw ((eq_iff j k).1 own) (omega arith)

  noting-IsCovered :
      (subject : String) (payload : Bytes) (s : Ledger × (T × K))
      → IsCovered s
      → IsCovered (noting event_id (beside_reader h) subject payload s).1
  noting-IsCovered subject payload (l, (t, κ)) p =
      let (r, t') = h subject payload t in
      noted-IsCovered (event_key (event_id subject payload)) l t r t' κ p (costs subject payload t)

  module _ (redis : Redis (Ledger × (T × K))) (laws : RedisLaws redis) (apart : Apart redis)
      (client : Client K Bytes) (dead_letter retry_topic topic : String) where
    covers :
        (s s' : Ledger × (T × K))
        → s'.0.handled ≡ s.0.handled
        → s'.1 ≡ s.1
        → IsCovered s
        → IsCovered s'
    covers s s' same apart p = rw same (rw apart p)

    abbrev after : List ℕ → Ledger × (T × K) → Ledger × (T × K)
    after =
        sessions event_id redis laws (beside_reader h) (lifted_client client) dead_letter
          retry_topic topic

    claiming-IsCovered :
        (subject : String) (payload : Bytes) (s : Ledger × (T × K))
        → IsCovered s
        → IsCovered (claiming event_id redis laws (beside_reader h) subject payload s).1
    claiming-IsCovered =
        claiming_preserves event_id redis laws (beside_reader h) IsCovered
          (λ j v s.
            covers s (redis.set_nx j v claim_time s).1 (laws.set_nx_handled j v s)
              (apart.set_nx_apart j v s))
          (λ j v s. covers s (redis.set j v 0 s).1 (laws.set_handled j v s) (apart.set_apart j v s))
          (λ j s. covers s (redis.del j s).1 (laws.del_handled j s) (apart.del_apart j s))
          noting-IsCovered

    sessions-IsCovered :
        (rounds : List ℕ) (s : Ledger × (T × K)) → IsCovered s → IsCovered (after rounds s)
    sessions-IsCovered [] s p = p
    sessions-IsCovered (n ∷ later) s p = sessions-IsCovered later _ (
        run_invariant IsCovered (lifted_client (lifted_client client))
          (record {
            fetch = λ s p. p;
            commit = λ msg s p. p;
            write = λ topic msg s p. p;
            enqueue = λ topic msg subject n e s p. p;
            now = λ s p. p;
          })
          dead_letter retry_topic topic (claiming event_id redis laws (beside_reader h))
          claiming-IsCovered n s p)

    -- Over any sessions of the loop the measure rises by one at most, from zero.
    pub covered_once :
        (rounds : List ℕ) (keys : String → Option String) (t : T) (w : K)
        → measure t ≡ 0
        → measure (after rounds (record { keys = keys; handled = [] }, (t, w))).1.0 ≤ 1
    covered_once rounds keys t w zero_first =
        let covered =
          sessions-IsCovered rounds (record { keys = keys; handled = [] }, (t, w))
            (omega (arith, zero_first)) in
        elim (handled-IsOnce event_id redis laws (beside_reader h) (lifted_client client)
          dead_letter retry_topic topic rounds keys (t, w) k) [
            | inl never ↦ omega (arith, covered, never)
            | inr (once, _) ↦ omega (arith, covered, once)
          ]
