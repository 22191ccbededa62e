-- ===== src/Kafka/Consumer/Order.antt =====
-- In which order the consumer loop fetches, handles, commits and queues, over all its rounds.
use ofm_mail_service.Prelude.{ℕ, zero, suc, ◌+◌, ◌≤◌, ◌≡◌, refl, String, [], ◌∷◌, Option, arith}
use ofm_mail_service.Errors.{Err}
use ofm_mail_service.Effect.{ok, err}
use ofm_mail_service.Kafka.Message.{Message, retry_attempt}
use ofm_mail_service.Kafka.Message.Laws.{retry_attempt_bounds}
use ofm_mail_service.Kafka.Consumer.{Flow, next, stop, round, run_pull_consumer, resume}
use ofm_mail_service.Kafka.Consumer.Trace.{
  fetched, handled, committed, enqueued, Trace, Outside, client, handler,
}
use ofm_mail_service.Kafka.Consumer.Rounds.{
  Round, Failure, unread, completed, retried, unencodable, dead_lettered, unreadable, refused,
  takes_course,
}

module _ {Bytes : Type 0} (o : Outside Bytes) (dead_letter retry_topic subject : String) where
  -- What came before a call of the trace.
  abbrev pub Succeeded : Message Bytes → Trace Bytes → Type 0
  Succeeded msg (handled payload (ok _) ∷ fetched m ∷ t) =
      (m ≡ msg) × (o.unwrap msg.value ≡ ok payload)
  Succeeded msg _ = ⊥

  abbrev pub Failed : Message Bytes → Trace Bytes → Type 0
  Failed msg (handled payload (err e) ∷ fetched m ∷ t) =
      (m ≡ msg) × (o.unwrap msg.value ≡ ok payload)
  Failed msg _ = ⊥

  -- Commits follow a success, and retries a failure, with a number in the limit.
  abbrev pub IsOrderly : Trace Bytes → Type 0
  IsOrderly [] = Unit
  IsOrderly (committed msg ∷ t) = Succeeded msg t × IsOrderly t
  IsOrderly (enqueued msg n ∷ t) =
      Failed msg t
      × (n ≡ retry_attempt msg.headers + 1)
      × (2 ≤ n)
      × (n ≤ o.max_attempts)
      × IsOrderly t
  IsOrderly (_ ∷ t) = IsOrderly t

  Failure-IsOrderly :
      {t t' : Trace Bytes} {msg : Message Bytes} {e : Err}
      → Failure o dead_letter retry_topic subject t msg e t'
      → IsOrderly t
      → IsOrderly t'
  Failure-IsOrderly (unreadable e u) h = h
  Failure-IsOrderly (refused payload e u a l) h = h

  Round-IsOrderly :
      {t t' : Trace Bytes} {flow : Flow}
      → Round o dead_letter retry_topic subject t flow t'
      → IsOrderly t
      → IsOrderly t'
  Round-IsOrderly (unread e n) h = h
  Round-IsOrderly (completed msg payload n u a) h = ((refl, u), h)
  Round-IsOrderly (retried msg payload e n u a p l) h =
      ((refl, u), refl, omega (arith, (retry_attempt_bounds msg.headers).0), omega arith, h)
  Round-IsOrderly (unencodable msg e x n f m) h = Failure-IsOrderly f h
  Round-IsOrderly (dead_lettered msg e bytes n f m) h = Failure-IsOrderly f h

  abbrev run : ℕ → Trace Bytes → Option (Option Err) × Trace Bytes
  run = run_pull_consumer (client o) dead_letter retry_topic subject (handler o)

  abbrev step : Trace Bytes → Flow × Trace Bytes
  step = round (client o) dead_letter retry_topic subject (handler o)

  resume-IsOrderly :
      (fuel : ℕ) (r : Flow × Trace Bytes)
      → ((u : Trace Bytes) → IsOrderly u → IsOrderly (run fuel u).1)
      → IsOrderly r.1
      → IsOrderly (resume (run fuel) r).1
  resume-IsOrderly fuel (next, t) ih h = ih t h
  resume-IsOrderly fuel (stop e, t) ih h = h

  -- Over any number of rounds, a message is committed only right after it was fetched and handled
  -- with success, and queued again only after it was fetched and its handler failed, as the next
  -- attempt, which is within the limit of attempts.
  pub run_pull_consumer-IsOrderly :
      (fuel : ℕ) (t : Trace Bytes) → IsOrderly t → IsOrderly (run fuel t).1
  unfolding run_pull_consumer
  run_pull_consumer-IsOrderly zero t h = h
  run_pull_consumer-IsOrderly (suc fuel) t h =
      resume-IsOrderly fuel (step t) (run_pull_consumer-IsOrderly fuel)
        (Round-IsOrderly (takes_course o dead_letter retry_topic subject t) h)
