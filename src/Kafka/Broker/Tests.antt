-- ===== src/Kafka/Broker/Tests.antt =====
-- A reader that answers one message to each session, which fails for good. The world counts fetches.
use ofm_mail_service.Prelude.{ℕ, suc, ◌≡◌, String, [], ◌∷◌, ◌++◌, pos}
use ofm_mail_service.Errors.{foreign, permanent}
use ofm_mail_service.Effect.{ok, err}
use ofm_mail_service.Config.Defaults.{empty_pull_consumer_config}
use ofm_mail_service.EventBroker.{MessageHandler}
use ofm_mail_service.Kafka.Consumer.{Client}
use ofm_mail_service.Kafka.Broker.{mail_broker, close}
use ofm_mail_service.Kafka.Broker.Laws.{empty, library, sessions, IsKept, sessions_leave}

abbrev client : Client ℕ String
client = record {
  fetch_message = λ n. (
    ok (record { key = "k"; value = "v"; headers = []; partition = pos 0; offset = pos 7 }),
    suc n,
  );
  commit_messages = λ msg n. (ok tt, n);
  write_message = λ topic msg n. (ok tt, n);
  enqueue = λ topic msg subject attempt e n. (ok tt, n);
  unwrap = λ value. ok value;
  marshal_dlq = λ r. ok r.error;
  type_name = λ e. "*errors.errorString";
  now = λ n. ("2026-01-01T00:00:00Z", n);
  max_attempts = 5;
}

abbrev handler : MessageHandler ℕ String
handler subject payload n = (err (foreign permanent "refused"), n)

sessions_leave_example :
    let (b, (l, w)) =
      sessions
        (λ subject v. ok v)
        (λ v. v)
        client
        empty_pull_consumer_config
        handler
        4
        3
        (mail_broker ("127.0.0.1:9092" ∷ []) "mail", (empty, 0)) in
    IsKept (λ subject v. ok v) (λ v. v) client empty_pull_consumer_config handler 4 b l
    × ((close (library (λ subject v. ok v) (λ v. v) client) b (l, w)).0.closed
        ≡ l.closed ++ l.opened)
sessions_leave_example =
    sessions_leave (λ subject v. ok v) (λ v. v) client empty_pull_consumer_config handler 4
      ("127.0.0.1:9092" ∷ []) "mail" 3 0
