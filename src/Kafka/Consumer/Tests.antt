-- ===== src/Kafka/Consumer/Tests.antt =====
-- A reader that answers the same message until it is committed, and a handler that always fails.
use ofm_mail_service.Prelude.{
  ℕ, zero, suc, ◌+◌, ◌≡◌, refl, inl, String, [], ◌∷◌, Option, arith, none, pos,
}
use ofm_mail_service.Errors.{
  Err, ForeignKind, foreign, permanent, other, deadline_exceeded, is_foreign,
}
use ofm_mail_service.Effect.{Result, ok, err}
use ofm_mail_service.Kafka.Message.{Message, retry_attempt}
use ofm_mail_service.Kafka.Consumer.{run_pull_consumer}
use ofm_mail_service.Kafka.Consumer.Trace.{
  Trace, Outside, client, handler, fetched, fetch_failed, handled, committed, enqueued, written,
}
use ofm_mail_service.Kafka.Consumer.Order.{IsOrderly, run_pull_consumer-IsOrderly}
use ofm_mail_service.Kafka.Consumer.Accounting.{
  commits, writes, requeues, Accounts, run_pull_consumer-Accounts,
}
use ofm_mail_service.Kafka.Consumer.Poison.{sessions, IsPoison, sessions_poison}
use ofm_mail_service.Kafka.Consumer.Requeue.{handlings, IsBetween, IsRetried, sessions_requeue}

abbrev message : Message String
message = record { key = "k"; value = "v"; headers = []; partition = pos 0; offset = pos 7 }

abbrev failure : ForeignKind → Err
failure kind = foreign kind "refused"

abbrev next_message : ℕ → Result (Message String)
next_message zero = ok message
next_message (suc _) = err (foreign deadline_exceeded "context deadline exceeded")

abbrev outside : ForeignKind → Outside String
outside kind = record {
  next_message = λ t. next_message (commits t);
  commit_answer = λ _. none;
  write_answer = λ _. none;
  enqueue_answer = λ _. none;
  handler_answer = λ _ _. err (failure kind);
  unwrap = λ value. ok value;
  marshal_dlq = λ r. ok r.error;
  type_name = λ _. "*errors.errorString";
  clock = λ _. "2026-01-01T00:00:00Z";
  max_attempts = 5;
}

abbrev run : ForeignKind → ℕ → Option (Option Err) × Trace String
run kind fuel =
    run_pull_consumer (client (outside kind)) "mail.send.dlq" "mail.send.retry" "mail.send"
      (handler (outside kind)) fuel []

run_pull_consumer-IsOrderly_example :
    IsOrderly (outside other) "mail.send.dlq" "mail.send.retry" "mail.send" (run other 3).1
run_pull_consumer-IsOrderly_example =
    run_pull_consumer-IsOrderly (outside other) "mail.send.dlq" "mail.send.retry" "mail.send" 3 []
      tt

run_pull_consumer-Accounts_example :
    Accounts
      (outside permanent)
      "mail.send.dlq"
      "mail.send.retry"
      "mail.send"
      3
      []
      (run permanent 3).0
      (run permanent 3).1
run_pull_consumer-Accounts_example =
    run_pull_consumer-Accounts (outside permanent) "mail.send.dlq" "mail.send.retry" "mail.send" 3
      []

is_poison :
    IsPoison
      (outside permanent)
      "mail.send.dlq"
      "mail.send.retry"
      "mail.send"
      9
      message
      "v"
      (failure permanent)
unfolding is_foreign
is_poison = record {
  resumes = λ t h. rw h refl;
  readable = refl;
  fails = λ t. refl;
  for_good = inl refl;
  encodes = λ r. (r.error, refl);
  writable = λ t. refl;
}

sessions_poison_example :
    (writes (sessions (outside permanent) "mail.send.dlq" "mail.send.retry" "mail.send" 9 4 [])
      ≡ 0 + 4)
    × (commits (sessions (outside permanent) "mail.send.dlq" "mail.send.retry" "mail.send" 9 4 [])
        ≡ 0)
sessions_poison_example =
    sessions_poison (outside permanent) "mail.send.dlq" "mail.send.retry" "mail.send" 9 is_poison 4
      [] refl

abbrev lost : Err
lost = foreign other "connection reset by peer"

-- a reader whose connection is lost behind each message
abbrev shaky : Trace String → Result (Message String)
shaky [] = ok message
shaky (fetch_failed e ∷ t) = ok message
shaky (fetched msg ∷ t) = err lost
shaky (handled payload result ∷ t) = err lost
shaky (committed msg ∷ t) = err lost
shaky (enqueued msg n ∷ t) = err lost
shaky (written topic msg ∷ t) = err lost

shaky-IsBetween : (t : Trace String) → IsBetween t → shaky t ≡ ok message
shaky-IsBetween [] between = refl
shaky-IsBetween (fetch_failed e ∷ t) between = refl
shaky-IsBetween (fetched _ ∷ t) between = elim between [ ]
shaky-IsBetween (handled _ _ ∷ t) between = elim between [ ]
shaky-IsBetween (committed _ ∷ t) between = elim between [ ]
shaky-IsBetween (enqueued _ _ ∷ t) between = elim between [ ]
shaky-IsBetween (written _ _ ∷ t) between = elim between [ ]

abbrev far : Outside String
far = record (outside other) { next_message = shaky }

is_retried :
    IsRetried far "mail.send.dlq" "mail.send.retry" "mail.send" 7 message "v" (failure other) lost
unfolding is_foreign retry_attempt
is_retried = record {
  resumes = λ t between h. shaky-IsBetween t between;
  readable = refl;
  fails = λ t. refl;
  passing = refl;
  attempts_left = omega arith;
  queues = λ t. refl;
  breaks = λ n t. refl;
}

abbrev after : ℕ → Trace String
after k = sessions far "mail.send.dlq" "mail.send.retry" "mail.send" 8 k []

sessions_requeue_example :
    (requeues (after 3) ≡ 0 + 3) × (handlings (after 3) ≡ 0 + 3) × (commits (after 3) ≡ 0)
sessions_requeue_example =
    sessions_requeue far "mail.send.dlq" "mail.send.retry" "mail.send" 7 is_retried 3 [] tt refl
