-- ===== src/Kafka/Consumer/Accounting.antt =====
-- How many messages the consumer loop commits, queues again and gives up, over all its rounds.
use ofm_mail_service.Prelude.{
  ℕ, zero, suc, ◌+◌, ◌≤◌, ◌≡◌, ◌≢◌, refl, String, [], ◌∷◌, Option, none, some, arith,
}
use ofm_mail_service.Errors.{Err}
use ofm_mail_service.Effect.{Result, ok, err}
use ofm_mail_service.Kafka.Message.{Message}
use ofm_mail_service.Kafka.Consumer.{
  Flow, next, stop, round, run_pull_consumer, resume, continued, returned,
}
use ofm_mail_service.Kafka.Consumer.Trace.{
  fetched, committed, enqueued, written, Trace, Outside, client, handler,
}
use ofm_mail_service.Kafka.Consumer.Rounds.{
  Round, Failure, unread, completed, retried, unencodable, dead_lettered, unreadable, refused,
  takes_course,
}

-- How often the calls of each kind stand in a trace.
module _ {Bytes : Type 0} where
  abbrev pub fetches : Trace Bytes → ℕ
  fetches [] = 0
  fetches (fetched msg ∷ t) = suc (fetches t)
  fetches (_ ∷ t) = fetches t

  abbrev pub commits : Trace Bytes → ℕ
  commits [] = 0
  commits (committed msg ∷ t) = suc (commits t)
  commits (_ ∷ t) = commits t

  abbrev pub requeues : Trace Bytes → ℕ
  requeues [] = 0
  requeues (enqueued msg n ∷ t) = suc (requeues t)
  requeues (_ ∷ t) = requeues t

  abbrev pub writes : Trace Bytes → ℕ
  writes [] = 0
  writes (written topic msg ∷ t) = suc (writes t)
  writes (_ ∷ t) = writes t

module _ {Bytes : Type 0} (o : Outside Bytes) (dead_letter retry_topic subject : String) where
  abbrev run : ℕ → Trace Bytes → Option (Option Err) × Trace Bytes
  run = run_pull_consumer (client o) dead_letter retry_topic subject (handler o)

  abbrev step : Trace Bytes → Flow × Trace Bytes
  step = round (client o) dead_letter retry_topic subject (handler o)

  -- What a round adds to the counts, where it goes on and where it returns nil.
  record Advances (t t' : Trace Bytes) : Type 0 where
    fetched_one : fetches t' ≡ fetches t + 1
    settled_one : commits t' + requeues t' ≡ commits t + requeues t + 1
    written_none : writes t' ≡ writes t

  record GivesUp (t t' : Trace Bytes) : Type 0 where
    fetched_one : fetches t' ≡ fetches t + 1
    settled_none : commits t' + requeues t' ≡ commits t + requeues t
    written_one : writes t' ≡ writes t + 1

  Failure-counts :
      {t t' : Trace Bytes} {msg : Message Bytes} {e : Err}
      → Failure o dead_letter retry_topic subject t msg e t'
      → (fetches t' ≡ fetches t + 1)
        × (commits t' ≡ commits t)
        × (requeues t' ≡ requeues t)
        × (writes t' ≡ writes t)
  Failure-counts (unreadable e u) = omega arith
  Failure-counts (refused payload e u a l) = omega arith

  continued-ne-nil : (r : Result (Unit {0})) → continued r ≢ stop none
  continued-ne-nil (ok _) = cc
  continued-ne-nil (err e) = cc

  returned-ne-next : (r : Result (Unit {0})) → returned r ≢ next
  returned-ne-next (ok _) = cc
  returned-ne-next (err e) = cc

  Round-Advances :
      {t t' : Trace Bytes} {flow : Flow}
      → Round o dead_letter retry_topic subject t flow t'
      → flow ≡ next
      → Advances t t'
  Round-Advances (unread e n) f = cc
  Round-Advances (completed msg payload n u a) f = omega arith
  Round-Advances (retried msg payload e n u a p l) f = omega arith
  Round-Advances (unencodable msg e x n g m) f = cc
  Round-Advances (dead_lettered msg e bytes n g m) f = absurd (returned-ne-next _ f)

  Round-GivesUp :
      {t t' : Trace Bytes} {flow : Flow}
      → Round o dead_letter retry_topic subject t flow t'
      → flow ≡ stop none
      → GivesUp t t'
  Round-GivesUp (unread e n) f = cc
  Round-GivesUp (completed msg payload n u a) f = absurd (continued-ne-nil _ f)
  Round-GivesUp (retried msg payload e n u a p l) f = absurd (continued-ne-nil _ f)
  Round-GivesUp (unencodable msg e x n g m) f = cc
  Round-GivesUp (dead_lettered msg e bytes n g m) f = omega (arith, Failure-counts g)

  -- The counts after `n` messages were settled: committed, or queued again.
  pub record Settled (n : ℕ) (t t' : Trace Bytes) : Type 0 where
    pub fetched_all : fetches t' ≡ fetches t + n
    pub settled_all : commits t' + requeues t' ≡ commits t + requeues t + n
    pub none_dead : writes t' ≡ writes t

  -- The counts where one more message was given up.
  pub record EndsDead (t t' : Trace Bytes) : Type 0 where
    pub one_dead : writes t' ≡ writes t + 1
    pub balance : fetches t' + (commits t + requeues t) ≡ fetches t + (commits t' + requeues t') + 1

  -- What the answer of the loop says of the counts.
  abbrev pub Accounts : ℕ → Trace Bytes → Option (Option Err) → Trace Bytes → Type 0
  Accounts n t none t' = Settled n t t'
  Accounts n t (some none) t' = EndsDead t t'
  Accounts n t (some (some e)) t' = writes t' ≤ writes t + 1

  Accounts-after :
      (n : ℕ) (t u v : Trace Bytes) (answer : Option (Option Err))
      → Advances t u
      → Accounts n u answer v
      → Accounts (suc n) t answer v
  Accounts-after n t u v none a h = omega arith
  Accounts-after n t u v (some none) a h = omega arith
  Accounts-after n t u v (some (some e)) a h = omega arith

  Round-writes :
      {t t' : Trace Bytes} {flow : Flow}
      → Round o dead_letter retry_topic subject t flow t'
      → writes t' ≤ writes t + 1
  Round-writes (unread e n) = omega arith
  Round-writes (completed msg payload n u a) = omega arith
  Round-writes (retried msg payload e n u a p l) = omega arith
  Round-writes (unencodable msg e x n g m) = omega (arith, Failure-counts g)
  Round-writes (dead_lettered msg e bytes n g m) = omega (arith, Failure-counts g)

  resume-Accounts :
      (n : ℕ) (t : Trace Bytes) (r : Flow × Trace Bytes)
      → ((u : Trace Bytes) → Accounts n u (run n u).0 (run n u).1)
      → Round o dead_letter retry_topic subject t r.0 r.1
      → Accounts (suc n) t (resume (run n) r).0 (resume (run n) r).1
  resume-Accounts n t (next, u) ih h =
      Accounts-after n t u _ (run n u).0 (Round-Advances h refl) (ih u)
  resume-Accounts n t (stop none, u) ih h = let g = Round-GivesUp h refl in omega arith
  resume-Accounts n t (stop (some e), u) ih h = Round-writes h

  -- While the loop goes on, after `n` rounds it has fetched `n` messages, each was committed or
  -- queued again, and no dead letter was written. Where it returns nil it has written exactly one
  -- dead letter, for the one message that it fetched and neither committed nor queued. Where it
  -- returns an error it has written at most one.
  pub run_pull_consumer-Accounts : (n : ℕ) (t : Trace Bytes) → Accounts n t (run n t).0 (run n t).1
  unfolding run_pull_consumer
  run_pull_consumer-Accounts zero t = omega arith
  run_pull_consumer-Accounts (suc n) t =
      resume-Accounts n t (step t) (run_pull_consumer-Accounts n)
        (takes_course o dead_letter retry_topic subject t)
