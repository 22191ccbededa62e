-- ===== src/Kafka/Consumer/Requeue.antt =====
-- A message whose handler fails for the time being, and a connection that is lost behind it. The
-- loop queues the message again and goes on without a commit, and a Kafka consumer group resumes at
-- the first message with no commit.
use ofm_mail_service.Prelude.{
  ℕ, zero, suc, ◌+◌, ◌<◌, ◌≡◌, refl, not, ◌&&◌, ltb, String, [], ◌∷◌, Option, none, some, arith,
  true, false,
}
use ofm_mail_service.Errors.{Err, permanent, is_foreign}
use ofm_mail_service.Effect.{ok, err}
use ofm_mail_service.Kafka.Message.{Message, retry_attempt}
use ofm_mail_service.Kafka.Consumer.{run_pull_consumer, round, process, unwrapped, after_handler}
use ofm_mail_service.Kafka.Consumer.Trace.{
  fetched, fetch_failed, handled, enqueued, Trace, Outside, client, handler,
}
use ofm_mail_service.Kafka.Consumer.Accounting.{commits, requeues}
use ofm_mail_service.Kafka.Consumer.Poison.{sessions}

module _ {Bytes : Type 0} where
  abbrev pub handlings : Trace Bytes → ℕ
  handlings [] = 0
  handlings (handled payload result ∷ t) = suc (handlings t)
  handlings (_ ∷ t) = handlings t

  -- Nothing was called yet, or the last session has lost its connection.
  abbrev pub IsBetween : Trace Bytes → Type 0
  IsBetween [] = Unit {0}
  IsBetween (fetch_failed e ∷ t) = Unit {0}
  IsBetween (_ ∷ t) = ⊥

module _ {Bytes : Type 0} (o : Outside Bytes) (dead_letter retry_topic subject : String)
    (fuel : ℕ) where
  abbrev run : Trace Bytes → Option (Option Err) × Trace Bytes
  run = run_pull_consumer (client o) dead_letter retry_topic subject (handler o) (suc (suc fuel))

  -- A message with these properties, at the head of what is not committed.
  pub record IsRetried (msg : Message Bytes) (payload : Bytes) (e lost : Err) : Type 0 where
    pub resumes : (t : Trace Bytes) → IsBetween t → commits t ≡ 0 → o.next_message t ≡ ok msg
    pub readable : o.unwrap msg.value ≡ ok payload
    pub fails : (t : Trace Bytes) → o.handler_answer payload t ≡ err e
    pub passing : is_foreign e permanent ≡ false
    pub attempts_left : retry_attempt msg.headers < o.max_attempts
    pub queues : (t : Trace Bytes) → o.enqueue_answer t ≡ none
    pub breaks : (n : ℕ) (t : Trace Bytes) → o.next_message (enqueued msg n ∷ t) ≡ err lost

  module _ {msg : Message Bytes} {payload : Bytes} {e lost : Err}
      (retried : IsRetried msg payload e lost) where
    retry : (not (is_foreign e permanent) && ltb (retry_attempt msg.headers) o.max_attempts) ≡ true
    retry = let p = retried.passing in let l = retried.attempts_left in ground arith

    session :
        (t : Trace Bytes)
        → IsBetween t
        → commits t ≡ 0
        → run t ≡ (
          some (some lost),
          fetch_failed lost
              ∷ enqueued msg (retry_attempt msg.headers + 1)
              ∷ handled payload (err e)
              ∷ fetched msg
              ∷ t,
        )
    unfolding run_pull_consumer round process unwrapped after_handler
    session t between h = rw (retried.resumes t between h) (
        rw retried.readable
          (rw (retried.fails _) (rw retry (rw (retried.queues _) (rw (retried.breaks _ _) refl)))))

    -- The message is never committed: each of `k` sessions reads it, gives it to the handler and puts
    -- one more copy of it into the retry queue before it ends.
    pub sessions_requeue :
        (k : ℕ) (t : Trace Bytes)
        → IsBetween t
        → commits t ≡ 0
        → (requeues (sessions o dead_letter retry_topic subject (suc fuel) k t) ≡ requeues t + k)
          × (handlings (sessions o dead_letter retry_topic subject (suc fuel) k t)
              ≡ handlings t + k)
          × (commits (sessions o dead_letter retry_topic subject (suc fuel) k t) ≡ 0)
    sessions_requeue zero t between h = (omega arith, omega arith, h)
    sessions_requeue (suc k) t between h =
        let (queued, given, none_yet) =
          sessions_requeue k
            (fetch_failed lost
              ∷ enqueued msg (retry_attempt msg.headers + 1)
              ∷ handled payload (err e)
              ∷ fetched msg
              ∷ t)
            tt h in
        rw (session t between h) (omega arith, omega arith, none_yet)
