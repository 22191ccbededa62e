-- ===== src/Fx/Reconnect/Tests.antt =====
-- A loop that is never cancelled, and one that is.
use ofm_mail_service.Prelude.{ℕ, suc, ◌≡◌, ◌⊎◌, String, [], ◌∷◌, none, false, refl, ap, arith, ltb}
use ofm_mail_service.Errors.{foreign, other}
use ofm_mail_service.Effect.{ok, err}
use ofm_mail_service.Config.{PullConsumerConfig}
use ofm_mail_service.Config.Defaults.{empty_pull_consumer_config}
use ofm_mail_service.Kafka.Broker.{Broker, Library, mail_broker, run_pull_consumer}
use ofm_mail_service.Kafka.Broker.Ending.{StopLaws, FetchesOn, Ends, session}
use ofm_mail_service.Kafka.Consumer.Samples.{cancelled, client, handler, three_rounds}
use ofm_mail_service.Fx.Reconnect.{
  Runner, waiting, returned, run, round, after_subscribe, after_wait, next_backoff, first_backoff,
}
use ofm_mail_service.Fx.Reconnect.Laws.{delay, run-delay}
use ofm_mail_service.Fx.Reconnect.Ending.{Stands, run-Stands}
use ofm_mail_service.Fx.Reconnect.Stopping.{reported, run-Ends}

abbrev endless : Runner (Unit {0})
endless = record { cancelled = λ _. false; subscribe = λ w. (ok tt, w); wait = λ _ w. (false, w) }

goes_on : (run endless 3 first_backoff tt).0 ≡ waiting 800_000_000
unfolding run round after_subscribe after_wait next_backoff
goes_on = refl

run-delay_example : 800_000_000 ≡ delay first_backoff 3
run-delay_example = run-delay endless 3 first_backoff 800_000_000 tt (omega arith) goes_on

-- the world counts the subscriptions, and the second one finds its context cancelled
abbrev cancelled_once : Runner ℕ
cancelled_once = record {
  cancelled = λ w. ltb 1 w;
  subscribe = λ w. (err (foreign other "connection refused"), suc w);
  wait = λ _ w. (ltb 1 w, w);
}

run-Stands_example : Stands cancelled_once 2 first_backoff 0 (run cancelled_once 2 first_backoff 0)
run-Stands_example =
    run-Stands cancelled_once (record { done = λ backoff w h. h }) 2 first_backoff 0

-- the broker's library around a reader whose context is cancelled behind the third message
abbrev library : Library ℕ ℕ String
library = record {
  wrap = λ subject payload. ok payload;
  sum256 = λ payload. payload;
  write_messages = λ brokers topic msg n. (ok tt, n);
  run_retry_queue = λ cfg n. n;
  new_reader = λ cfg n. (0, n);
  close_reader = λ r n. n;
  client = λ r brokers. client;
  retry_topic = λ group. group;
  max_attempts = 5;
}

abbrev mail_send : PullConsumerConfig
mail_send = record empty_pull_consumer_config { subject = "mail.send" }

abbrev broker : Broker ℕ
broker = mail_broker [] "mail"

library-StopLaws : StopLaws library cancelled
library-StopLaws = record {
  fetch_stays = λ r brokers n over. rw over over;
  close_stays = λ r n over. over;
}

abbrev stopping : Runner (Broker ℕ × ℕ)
stopping = record {
  cancelled = λ s. cancelled s.1;
  subscribe = λ (b, n). reported (session library cancelled mail_send handler b n 4);
  wait = λ backoff s. (false, s);
}

three_rounds_of_session :
    session library cancelled mail_send handler broker 0 3
    ≡ (none, (record broker { readers = 0 ∷ [] }, 3))
unfolding run_pull_consumer
three_rounds_of_session = rw three_rounds refl

run-Ends_example :
    FetchesOn library cancelled mail_send handler broker 0
      (session library cancelled mail_send handler broker 0 3).1
    ⊎ (Ends library cancelled mail_send handler broker 0 3
          (session library cancelled mail_send handler broker 0 3).1
        × (run stopping 1 first_backoff (broker, 0)
            ≡ (returned, (session library cancelled mail_send handler broker 0 4).1)))
run-Ends_example =
    run-Ends library cancelled library-StopLaws mail_send handler stopping (λ s. refl) 3
      first_backoff 0 broker 0 refl refl (ap (λ x. x.0) three_rounds_of_session)
      (ap (λ x. cancelled x.1.1) three_rounds_of_session)
