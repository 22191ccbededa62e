-- ===== src/Fx/Claims/Consuming.antt =====
-- The consumer loop of kafka/broker.go with the handler of fx/messaging.go that claims each event:
-- what holds over any number of sessions, as long as no key expires and no other process claims.
pub mod Exact
pub mod Tests
use ofm_mail_service.Prelude.{
  ℕ, ◌≡◌, ◌≢◌, ◌⊎◌, inl, inr, refl, subst, String, List, [], ◌∷◌, Bool, Option, none, some, true,
  false, ◌==◌, arith, count, eq_iff, Bool-cases,
}
use ofm_mail_service.Effect.{Result, ok, err}
use ofm_mail_service.EventBroker.{MessageHandler}
use ofm_mail_service.Kafka.Consumer.{Client}
use ofm_mail_service.Kafka.Consumer.Frame.{lifted, lifted_run, run_pull_consumer_preserves}
use ofm_mail_service.Fx.Claims.{
  Redis, event_key, claim_time, redis_event_store, claiming_handler, claimed, settle_claim,
}

-- The keys in Redis, and the keys of the events whose handler has returned nil.
pub record Ledger : Type 0 where
  pub keys : String → Option String
  pub handled : List String

-- By what Redis documents of its commands, whether or not their answer comes back: SETNX claims a
-- key that is not set, no key is cleared but by DEL, and DEL clears its own key only.
pub record RedisLaws {W : Type 0} (redis : Redis (Ledger × W)) : Type 0 where
  pub set_nx_true :
      (k v : String) (s : Ledger × W)
      → (redis.set_nx k v claim_time s).0 ≡ ok true
      → (s.0.keys k ≡ none) × ((redis.set_nx k v claim_time s).1.0.keys k ≢ none)
  pub set_nx_clears_none :
      (k v j : String) (s : Ledger × W)
      → s.0.keys j ≢ none
      → (redis.set_nx k v claim_time s).1.0.keys j ≢ none
  pub set_clears_none :
      (k v j : String) (s : Ledger × W) → s.0.keys j ≢ none → (redis.set k v 0 s).1.0.keys j ≢ none
  pub del_clears_one :
      (k j : String) (s : Ledger × W)
      → k ≢ j
      → s.0.keys j ≢ none
      → (redis.del k s).1.0.keys j ≢ none
  -- the list is not in Redis
  pub set_nx_handled :
      (k v : String) (s : Ledger × W) → (redis.set_nx k v claim_time s).1.0.handled ≡ s.0.handled
  pub set_handled : (k v : String) (s : Ledger × W) → (redis.set k v 0 s).1.0.handled ≡ s.0.handled
  pub del_handled : (k : String) (s : Ledger × W) → (redis.del k s).1.0.handled ≡ s.0.handled

abbrev pub times : String → Ledger → ℕ
times k l = count (λ j. j == k) l.handled

-- An event was handled with success once at most, and its key is set from then on.
abbrev pub IsOnce : String → Ledger → Type 0
IsOnce k l = (times k l ≡ 0) ⊎ ((times k l ≡ 1) × (l.keys k ≢ none))

-- A handler that leaves Redis alone, noted in the list where it returns nil.
abbrev pub noted :
    {W : Type 0} → String → Result (Unit {0}) × (Ledger × W) → Result (Unit {0}) × (Ledger × W)
noted k (ok _, (l, w)) = (ok tt, (record l { handled = k ∷ l.handled }, w))
noted k (err e, (l, w)) = (err e, (l, w))

module _ {W Bytes : Type 0} (event_id : String → Bytes → String) where
  abbrev pub noting : MessageHandler W Bytes → MessageHandler (Ledger × W) Bytes
  noting h subject payload s =
      noted (event_key (event_id subject payload)) (lifted (h subject payload) s)

  module _ (redis : Redis (Ledger × W)) (laws : RedisLaws redis) (h : MessageHandler W Bytes) where
    abbrev pub claiming : MessageHandler (Ledger × W) Bytes
    claiming = claiming_handler event_id (some (redis_event_store redis)) (noting h)

    module _ (k : String) where
      set-IsOnce : (j v : String) (s : Ledger × W) → IsOnce k s.0 → IsOnce k (redis.set j v 0 s).1.0
      set-IsOnce j v s p =
          let keys = laws.set_clears_none j v k s in
          rw (laws.set_handled j v s) (elim p [ inl z ↦ inl z | inr (o, b) ↦ inr (o, keys b) ])

      ask-IsOnce :
          (j v : String) (s : Ledger × W)
          → IsOnce k s.0
          → IsOnce k (redis.set_nx j v claim_time s).1.0
      ask-IsOnce j v s p =
          let keys = laws.set_nx_clears_none j v k s in
          rw (laws.set_nx_handled j v s) (elim p [ inl z ↦ inl z | inr (o, b) ↦ inr (o, keys b) ])

      -- the release of an event that was not handled
      del-IsOnce :
          (j : String) (s : Ledger × W)
          → IsOnce k s.0
          → (j ≡ k → times k s.0 ≡ 0)
          → IsOnce k (redis.del j s).1.0
      del-IsOnce j s p free =
          let keys = laws.del_clears_one j k s in
          rw (laws.del_handled j s) (elim p [
            | inl z ↦ inl z
            | inr (o, b) ↦ elim (Bool-cases (j == k)) [
              | inl same ↦ inl (free ((eq_iff j k).0 same))
              | inr other ↦ inr (o, keys (λ e. let same = (eq_iff j k).1 e in cc) b)
            ]
          ])

      -- An event that is claimed: its key is set, and it was not handled.
      abbrev IsFree : String → Ledger → Type 0
      IsFree j l = j ≡ k → (times k l ≡ 0) × (l.keys k ≢ none)

      noted-IsOnce :
          (j : String) (x : Result (Unit {0}) × (Ledger × W))
          → IsOnce k x.1.0
          → IsFree j x.1.0
          → IsOnce k (noted j x).1.0
      noted-IsOnce j (ok _, (l, w)) p free = elim (Bool-cases (j == k)) [
        | inl same ↦ let (z, b) = free ((eq_iff j k).0 same) in inr (rw same (omega (arith, z)), b)
        | inr other ↦ rw other p
      ]
      noted-IsOnce j (err e, (l, w)) p free = p

      settled-IsOnce :
          (id : String) (r : Result (Unit {0})) (s : Ledger × W)
          → IsOnce k s.0
          → (r ≢ ok tt → event_key id ≡ k → times k s.0 ≡ 0)
          → IsOnce k (settle_claim event_id (redis_event_store redis) id r s).1.0
      unfolding settle_claim redis_event_store
      settled-IsOnce id (ok _) s p free = set-IsOnce (event_key id) "done" s p
      settled-IsOnce id (err e) s p free = del-IsOnce (event_key id) s p (free (λ n. cc))

      noted_free :
          (j : String) (x : Result (Unit {0}) × (Ledger × W))
          → IsFree j x.1.0
          → (noted j x).0 ≢ ok tt
          → j ≡ k
          → times k (noted j x).1.0 ≡ 0
      noted_free j (ok _, s) free failed same = absurd (failed refl)
      noted_free j (err e, s) free failed same = (free same).0

      claimed-IsOnce :
          (subject : String) (payload : Bytes) (r : Result Bool) (s : Ledger × W)
          → IsOnce k s.0
          → (r ≡ ok true → IsFree (event_key (event_id subject payload)) s.0)
          → IsOnce k (claimed event_id (redis_event_store redis) (noting h) subject payload r s).1.0
      unfolding claimed
      claimed-IsOnce subject payload (err e) s p free = p
      claimed-IsOnce subject payload (ok false) s p free = p
      claimed-IsOnce subject payload (ok true) s p free =
          let key = event_key (event_id subject payload) in
          let x = lifted (h subject payload) s in
          settled-IsOnce (event_id subject payload) (noted key x).0 (noted key x).1
            (noted-IsOnce key x p (free refl)) (noted_free key x (free refl))

      asked-IsFree :
          (j : String) (s : Ledger × W)
          → IsOnce k s.0
          → (redis.set_nx j "processing" claim_time s).0 ≡ ok true
          → IsFree j (redis.set_nx j "processing" claim_time s).1.0
      asked-IsFree j s p granted same =
          let (none_before, set_after) = laws.set_nx_true j "processing" s granted in
          (
            rw (laws.set_nx_handled j "processing" s) (elim p [
              | inl z ↦ z
              | inr (o, b) ↦ absurd (b (subst (λ i. s.0.keys i ≡ none) same none_before))
            ]),
            subst (λ i. (redis.set_nx j "processing" claim_time s).1.0.keys i ≢ none) same
                set_after,
          )

      pub claiming-IsOnce :
          (subject : String) (payload : Bytes) (s : Ledger × W)
          → IsOnce k s.0
          → IsOnce k (claiming subject payload s).1.0
      unfolding claiming_handler redis_event_store
      claiming-IsOnce subject payload s p =
          let j = event_key (event_id subject payload) in
          claimed-IsOnce subject payload _ _ (ask-IsOnce j "processing" s p) (asked-IsFree j s p)

    module _ (client : Client W Bytes) (dead_letter retry_topic subject : String) where
      -- Sessions of the consumer loop one after the other, with the rounds of each.
      abbrev pub sessions : List ℕ → Ledger × W → Ledger × W
      sessions [] s = s
      sessions (rounds ∷ later) s =
          sessions later (lifted_run client dead_letter retry_topic subject claiming rounds s).1

      sessions-IsOnce :
          (k : String) (rounds : List ℕ) (s : Ledger × W)
          → IsOnce k s.0
          → IsOnce k (sessions rounds s).0
      sessions-IsOnce k [] s p = p
      sessions-IsOnce k (n ∷ later) s p = sessions-IsOnce k later _ (
          run_pull_consumer_preserves client dead_letter retry_topic subject claiming (IsOnce k)
            (claiming-IsOnce k) n s p)

      -- Over any sessions of the consumer loop, whatever the reader delivers and how often, and
      -- whatever fails, the handler returns nil for an event once at most, by what Redis documents,
      -- as long as no key expires and no other process changes the keys. From the first time on, the
      -- event's key is set.
      pub handled-IsOnce :
          (rounds : List ℕ) (keys : String → Option String) (w : W) (k : String)
          → IsOnce k (sessions rounds (record { keys = keys; handled = [] }, w)).0
      handled-IsOnce rounds keys w k =
          sessions-IsOnce k rounds (record { keys = keys; handled = [] }, w) (inl refl)
