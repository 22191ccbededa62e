-- ===== src/Kafka/Consumer/Samples.antt =====
-- A loop whose context is cancelled while it handles its third message. The world counts fetches.
use ofm_mail_service.Prelude.{ℕ, suc, ◌≡◌, refl, String, Bool, none, [], pos, ltb, if◌then◌else◌}
use ofm_mail_service.Errors.{foreign, other}
use ofm_mail_service.Effect.{ok, err}
use ofm_mail_service.EventBroker.{MessageHandler}
use ofm_mail_service.Kafka.Consumer.{
  Client, run_pull_consumer, round, process, unwrapped, after_handler,
}

abbrev pub cancelled : ℕ → Bool
cancelled n = ltb 2 n

abbrev pub client : Client ℕ String
client = record {
  fetch_message = λ n. if cancelled n then (err (foreign other "context canceled"), n) else (
    ok (record { key = "k"; value = "v"; headers = []; partition = pos 0; offset = pos n }),
    suc n,
  );
  commit_messages = λ msg n. (ok tt, n);
  write_message = λ topic msg n. (ok tt, n);
  enqueue = λ topic msg subject attempt e n. (ok tt, n);
  unwrap = λ value. ok value;
  marshal_dlq = λ r. ok r.error;
  type_name = λ e. "*errors.errorString";
  now = λ n. ("2026-01-01T00:00:00Z", n);
  max_attempts = 5;
}

abbrev pub handler : MessageHandler ℕ String
handler subject payload n = (ok tt, n)

pub three_rounds :
    run_pull_consumer client "mail.dead-letter" "mail" "mail.send" handler 3 0 ≡ (none, 3)
unfolding run_pull_consumer round process unwrapped after_handler
three_rounds = refl
