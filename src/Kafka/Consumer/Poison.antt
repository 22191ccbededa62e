-- ===== src/Kafka/Consumer/Poison.antt =====
-- A message that fails for good. The loop writes its dead letter and returns without a commit; the
-- caller reconnects, and a Kafka consumer group resumes at the first message with no commit.
use ofm_mail_service.Prelude.{
  ℕ, zero, suc, ◌+◌, ◌≤◌, ◌≡◌, refl, ◌⊎◌, not, ◌&&◌, ltb, String, Option, none, some, arith, true,
  false,
}
use ofm_mail_service.Errors.{Err, permanent, is_foreign}
use ofm_mail_service.Effect.{ok, err}
use ofm_mail_service.Kafka.Message.{Message, retry_attempt}
use ofm_mail_service.Kafka.Consumer.{
  DlqRecord, run_pull_consumer, round, process, unwrapped, after_handler, dead_letter_message,
}
use ofm_mail_service.Kafka.Consumer.Trace.{Trace, Outside, client, handler}
use ofm_mail_service.Kafka.Consumer.Accounting.{commits, writes}

module _ {Bytes : Type 0} (o : Outside Bytes) (dead_letter retry_topic subject : String)
    (fuel : ℕ) where
  abbrev run : Trace Bytes → Option (Option Err) × Trace Bytes
  run = run_pull_consumer (client o) dead_letter retry_topic subject (handler o) (suc fuel)

  -- The reconnecting caller: a new session after each return.
  abbrev pub sessions : ℕ → Trace Bytes → Trace Bytes
  sessions zero t = t
  sessions (suc k) t = sessions k (run t).1

  -- A message with these properties, at the head of what is not committed.
  pub record IsPoison (msg : Message Bytes) (payload : Bytes) (e : Err) : Type 0 where
    pub resumes : (t : Trace Bytes) → commits t ≡ 0 → o.next_message t ≡ ok msg
    pub readable : o.unwrap msg.value ≡ ok payload
    pub fails : (t : Trace Bytes) → o.handler_answer payload t ≡ err e
    pub for_good : (is_foreign e permanent ≡ true) ⊎ (o.max_attempts ≤ retry_attempt msg.headers)
    pub encodes : (r : DlqRecord Bytes) → (b : Bytes) × (o.marshal_dlq r ≡ ok b)
    pub writable : (t : Trace Bytes) → o.write_answer t ≡ none

  module _ {msg : Message Bytes} {payload : Bytes} {e : Err} (poison : IsPoison msg payload e) where
    no_retry :
        (not (is_foreign e permanent) && ltb (retry_attempt msg.headers) o.max_attempts) ≡ false
    no_retry = let h = poison.for_good in ground arith

    session :
        (t : Trace Bytes)
        → commits t ≡ 0
        → ((run t).0 ≡ some none) × (writes (run t).1 ≡ suc (writes t)) × (commits (run t).1 ≡ 0)
    unfolding run_pull_consumer round process unwrapped after_handler dead_letter_message
    session t h = rw (poison.resumes t h) (
        rw poison.readable (
          rw (poison.fails _)
            (rw no_retry (rw ((poison.encodes _).1) (rw (poison.writable _) (refl, refl, h))))))

    -- The message is never committed: each of `k` sessions ends after its dead letter, and the next
    -- one reads the message again, so that `k` dead letters are written and nothing else is read.
    pub sessions_poison :
        (k : ℕ) (t : Trace Bytes)
        → commits t ≡ 0
        → (writes (sessions k t) ≡ writes t + k) × (commits (sessions k t) ≡ 0)
    sessions_poison zero t h = omega arith
    sessions_poison (suc k) t h =
        let (_, more, still) = session t h in omega (arith, sessions_poison k (run t).1 still)
