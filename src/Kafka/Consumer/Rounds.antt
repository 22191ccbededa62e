-- ===== src/Kafka/Consumer/Rounds.antt =====
-- The courses of one round of the consumer loop: each message that is fetched is committed, queued
-- for one more attempt, or given up.
use ofm_mail_service.Prelude.{
  ◌+◌, ◌≤◌, ◌<◌, ◌≡◌, refl, inl, inr, ◌⊎◌, String, ◌∷◌, some, arith, true, false, Bool-cases, ltb,
  not, ◌&&◌,
}
use ofm_mail_service.Errors.{Err, permanent, is_foreign}
use ofm_mail_service.Effect.{Result, ok, err, check}
use ofm_mail_service.Kafka.Message.{Message, retry_attempt}
use ofm_mail_service.Kafka.Consumer.{
  Flow, stop, returned, continued, ending, DlqRecord, dlq_record, dlq_message, dead_letter_message,
  after_handler, unwrapped, process, round,
}
use ofm_mail_service.Kafka.Consumer.Trace.{
  Call, fetched, fetch_failed, handled, committed, enqueued, written, Trace, Outside, client,
  handler, fetch_call,
}

module _ {Bytes : Type 0} (o : Outside Bytes) (dead_letter retry_topic subject : String) where
  abbrev step : Trace Bytes → Flow × Trace Bytes
  step = round (client o) dead_letter retry_topic subject (handler o)

  -- The record and the message of a dead letter.
  abbrev dead_record : Message Bytes → Err → Trace Bytes → DlqRecord Bytes
  dead_record msg e t =
      dlq_record (client o) dead_letter retry_topic subject (handler o) msg
        (retry_attempt msg.headers) e (o.clock t)

  abbrev pub dead : Message Bytes → Bytes → Call Bytes
  dead msg bytes =
      written dead_letter
        (dlq_message (client o) dead_letter retry_topic subject (handler o) msg bytes)

  -- The failures that are not retried, with the trace at that point.
  pub data Failure (t : Trace Bytes) (msg : Message Bytes) : Err → Trace Bytes → Type 0 where
    unreadable : (e : Err) → o.unwrap msg.value ≡ err e → Failure t msg e (fetched msg ∷ t)
    refused :
        (payload : Bytes) (e : Err)
        → o.unwrap msg.value ≡ ok payload
        → o.handler_answer payload (fetched msg ∷ t) ≡ err e
        → (is_foreign e permanent ≡ true) ⊎ (o.max_attempts ≤ retry_attempt msg.headers)
        → Failure t msg e (handled payload (err e) ∷ fetched msg ∷ t)

  -- The courses of one round from the trace `t`.
  pub data Round (t : Trace Bytes) : Flow → Trace Bytes → Type 0 where
    -- the reader failed
    unread : (e : Err) → o.next_message t ≡ err e → Round t (stop (some e)) (fetch_failed e ∷ t)
    -- handled, and committed if the reader agrees
    completed :
        (msg : Message Bytes) (payload : Bytes)
        → o.next_message t ≡ ok msg
        → o.unwrap msg.value ≡ ok payload
        → o.handler_answer payload (fetched msg ∷ t) ≡ ok tt
        → Round t
            (continued
              (check (o.commit_answer (committed msg ∷ handled payload (ok tt) ∷ fetched msg ∷ t))))
            (committed msg ∷ handled payload (ok tt) ∷ fetched msg ∷ t)
    -- failed, and queued for one more attempt, within the limit
    retried :
        (msg : Message Bytes) (payload : Bytes) (e : Err)
        → o.next_message t ≡ ok msg
        → o.unwrap msg.value ≡ ok payload
        → o.handler_answer payload (fetched msg ∷ t) ≡ err e
        → is_foreign e permanent ≡ false
        → retry_attempt msg.headers < o.max_attempts
        → Round t
            (continued (
              check (
                o.enqueue_answer (
                  enqueued msg (retry_attempt msg.headers + 1)
                  ∷ handled payload (err e)
                  ∷ fetched msg
                  ∷ t))))
            (enqueued msg (retry_attempt msg.headers + 1)
              ∷ handled payload (err e)
              ∷ fetched msg
              ∷ t)
    -- failed for good, and the dead letter cannot be encoded
    unencodable :
        (msg : Message Bytes) (e x : Err) {t' : Trace Bytes}
        → o.next_message t ≡ ok msg
        → Failure t msg e t'
        → o.marshal_dlq (dead_record msg e t') ≡ err x
        → Round t (stop (some x)) t'
    -- failed for good, and written to the dead-letter topic: the loop returns, with no commit
    dead_lettered :
        (msg : Message Bytes) (e : Err) (bytes : Bytes) {t' : Trace Bytes}
        → o.next_message t ≡ ok msg
        → Failure t msg e t'
        → o.marshal_dlq (dead_record msg e t') ≡ ok bytes
        → Round t (returned (check (o.write_answer (dead msg bytes ∷ t')))) (dead msg bytes ∷ t')

  given_up :
      {t t' : Trace Bytes} (msg : Message Bytes) (e : Err) (r : Result Bytes)
      → o.next_message t ≡ ok msg
      → Failure t msg e t'
      → o.marshal_dlq (dead_record msg e t') ≡ r
      → let (flow, t'') = ending returned (
          dead_letter_message
            (client o)
            dead_letter
            retry_topic
            subject
            (handler o)
            msg
            (retry_attempt msg.headers)
            e
            t') in
        Round t flow t''
  unfolding dead_letter_message
  given_up msg e (ok bytes) n f m = rw m (dead_lettered msg e bytes n f m)
  given_up msg e (err x) n f m = rw m (unencodable msg e x n f m)

  answered :
      {t : Trace Bytes} (msg : Message Bytes) (payload : Bytes) (r : Result (Unit {0}))
      → o.next_message t ≡ ok msg
      → o.unwrap msg.value ≡ ok payload
      → o.handler_answer payload (fetched msg ∷ t) ≡ r
      → let (flow, t'') =
          after_handler
            (client o)
            dead_letter
            retry_topic
            subject
            (handler o)
            msg
            (retry_attempt msg.headers)
            (r, handled payload r ∷ fetched msg ∷ t) in
        Round t flow t''
  answered msg payload (ok _) n u h = unfold after_handler in completed msg payload n u h
  answered msg payload (err e) n u h =
      elim (Bool-cases
        (not (is_foreign e permanent) && ltb (retry_attempt msg.headers) o.max_attempts)) [
          | inl again ↦
              unfold after_handler in
              rw again (retried msg payload e n u h (ground arith) (ground arith))
          | inr last ↦
              unfold after_handler in
              rw last (given_up msg e _ n (refused payload e u h (ground arith)) refl)
        ]

  unwrapped-Round :
      {t : Trace Bytes} (msg : Message Bytes) (u : Result Bytes)
      → o.next_message t ≡ ok msg
      → o.unwrap msg.value ≡ u
      → let (flow, t') =
          unwrapped
            (client o)
            dead_letter
            retry_topic
            subject
            (handler o)
            msg
            (retry_attempt msg.headers)
            u
            (fetched msg ∷ t) in
        Round t flow t'
  unfolding unwrapped
  unwrapped-Round msg (ok payload) n e = answered msg payload _ n e refl
  unwrapped-Round msg (err x) n e = given_up msg x _ n (unreadable x e) refl

  process-Round :
      {t : Trace Bytes} (r : Result (Message Bytes))
      → o.next_message t ≡ r
      → let (flow, t') =
          process (client o) dead_letter retry_topic subject (handler o) (r, fetch_call r ∷ t) in
        Round t flow t'
  unfolding process
  process-Round (ok msg) n = unwrapped-Round msg _ n refl
  process-Round (err e) n = unread e n

  -- Every round of the loop takes one of the courses of `Round`.
  pub takes_course : (t : Trace Bytes) → let (flow, t') = step t in Round t flow t'
  unfolding round
  takes_course t = process-Round _ refl
