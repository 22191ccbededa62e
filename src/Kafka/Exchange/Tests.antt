-- ===== src/Kafka/Exchange/Tests.antt =====
-- A message that another service has published, in the second place of its partition.
use Prim.Native.String.{◌++◌}
use ofm_mail_service.Prelude.{ℕ, ℤ, ◌≡◌, refl, String, List, [], ◌∷◌, pos, none}
use ofm_mail_service.Errors.{foreign, other}
use ofm_mail_service.Effect.{ok, err}
use ofm_mail_service.Kafka.Message.{Message, retry_attempt}
use ofm_mail_service.Kafka.Consumer.{Client, round}
use ofm_mail_service.Kafka.Consumer.Trace.{Outside, client, handler}
use ofm_mail_service.Kafka.Broker.{mail_broker, publish}
use ofm_mail_service.Kafka.Exchange.{Written, writing, Handles, envelope, publish-Handles}

abbrev silent : Client (Written String) String
silent = record {
  fetch_message = λ log. (err (foreign other "closed"), log);
  commit_messages = λ msg log. (ok tt, log);
  write_message = λ topic msg log. (ok tt, log);
  enqueue = λ topic msg subject attempt e log. (ok tt, log);
  unwrap = λ value. ok value;
  marshal_dlq = λ r. ok r.error;
  type_name = λ e. "*errors.errorString";
  now = λ log. ("2026-01-01T00:00:00Z", log);
  max_attempts = 5;
}

abbrev enveloped : String
enveloped = "{\"payload\":\"v\"}"

abbrev outgoing : List (String × List ℕ)
outgoing = ("traceparent", 48 ∷ 48 ∷ []) ∷ []

abbrev sum256 : String → String
sum256 value = "key of " ++ value

abbrev written : ℤ → ℤ → Message String
written = envelope sum256 outgoing enveloped

abbrev outside : Outside String
outside = record {
  next_message = λ _. ok (written (pos 0) (pos 1));
  commit_answer = λ _. none;
  write_answer = λ _. none;
  enqueue_answer = λ _. none;
  handler_answer = λ _ _. err (foreign other "refused");
  unwrap = λ value. ok "v";
  marshal_dlq = λ r. ok r.error;
  type_name = λ _. "*errors.errorString";
  clock = λ _. "2026-01-01T00:00:00Z";
  max_attempts = 5;
}

publish-Handles_example :
    (publish
        (writing (λ topic payload. ok enveloped) sum256 (tt {0}) silent)
        outgoing
        (mail_broker ("127.0.0.1:9092" ∷ []) "mail")
        "mail.send"
        "v"
        []
      ≡ (ok tt, ("mail.send", written (pos 0) (pos 0)) ∷ []))
    × (retry_attempt (written (pos 0) (pos 1)).headers ≡ 1)
    × Handles outside "mail.dlq" "mail.retry" "mail.send" []
        (written (pos 0) (pos 1))
        "v"
        (round (client outside) "mail.dlq" "mail.retry" "mail.send" (handler outside) []).1
publish-Handles_example =
    publish-Handles outside "mail.dlq" "mail.retry" "mail.send" (λ topic payload. ok enveloped)
      sum256 tt silent (mail_broker ("127.0.0.1:9092" ∷ []) "mail") outgoing (refl, tt) "v"
      enveloped (pos 0) (pos 1) [] [] refl refl refl
