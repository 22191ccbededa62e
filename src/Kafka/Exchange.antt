-- ===== src/Kafka/Exchange.antt =====
-- A message between two services: kafka/broker.go `Publish` writes it, and the loop of
-- `RunPullConsumer` reads it. Kafka gives it a partition and an offset.
mod Tests
use ofm_mail_service.Prelude.{
  ℕ, ◌+◌, ◌≡◌, refl, sym, ap, ◌∙◌, String, List, [], ◌∷◌, ◌++◌, false, ◌==◌, ℤ, pos, subst, All,
  inl, inr,
}
use ofm_mail_service.Errors.{Err}
use ofm_mail_service.Effect.{Result, ok, err}
use ofm_mail_service.Kafka.Message.{Header, Message, retry_attempt}
use ofm_mail_service.Kafka.Consumer.{Flow, Client, round}
use ofm_mail_service.Kafka.Consumer.Trace.{
  fetched, handled, committed, enqueued, written, Trace, Outside, client, handler,
}
use ofm_mail_service.Kafka.Consumer.Rounds.{
  Round, Failure, unread, completed, retried, unencodable, dead_lettered, unreadable, refused,
  takes_course, dead,
}
use ofm_mail_service.Kafka.Broker.{Broker, Library, publish, kafka_headers}

-- What was written to a topic.
abbrev pub Written : Type 0 → Type 0
Written Bytes = List (String × Message Bytes)

-- A library that keeps what is written.
module _ {Reader Bytes : Type 0} (wrap : String → Bytes → Result Bytes) (sum256 : Bytes → Bytes)
    (reader : Reader) (reads : Client (Written Bytes) Bytes) where
  abbrev pub writing : Library (Written Bytes) Reader Bytes
  writing = record {
    wrap = wrap;
    sum256 = sum256;
    write_messages = λ _ topic msg log. (ok tt, (topic, msg) ∷ log);
    run_retry_queue = λ _ log. log;
    new_reader = λ _ log. (reader, log);
    close_reader = λ _ log. log;
    client = λ _ _. reads;
    retry_topic = λ group. group;
    max_attempts = reads.max_attempts;
  }

-- the message for an envelope, at a place in a partition
abbrev pub envelope :
    {Bytes : Type 0} → (Bytes → Bytes) → List (String × List ℕ) → Bytes → ℤ → ℤ → Message Bytes
envelope sum256 outgoing enveloped partition offset = record {
  key = sum256 enveloped;
  value = enveloped;
  headers = kafka_headers outgoing;
  partition = partition;
  offset = offset;
}

-- The context carries no attempt.
abbrev pub IsFirst : List (String × List ℕ) → Type 0
IsFirst = All λ h. h.0 == "x-ofm-retry-attempt" ≡ false

first_attempt :
    (outgoing : List (String × List ℕ))
    → IsFirst outgoing
    → retry_attempt (kafka_headers outgoing) ≡ 1
unfolding retry_attempt
first_attempt [] first = refl
first_attempt (h ∷ hs) (other, rest) = rw other (first_attempt hs rest)

module _ {Bytes : Type 0} (o : Outside Bytes) (dead_letter retry_topic subject : String) where
  -- The message is fetched, and the payload is given to the handler before anything else is done.
  abbrev pub Handles : Trace Bytes → Message Bytes → Bytes → Trace Bytes → Type 0
  Handles t msg payload t' =
      (later : Trace Bytes) × (t'
        ≡ later ++ handled payload (o.handler_answer payload (fetched msg ∷ t)) ∷ fetched msg ∷ t)

  Failure-Handles :
      {t t' : Trace Bytes} {msg : Message Bytes} {e : Err} {payload : Bytes}
      → Failure o dead_letter retry_topic subject t msg e t'
      → o.unwrap msg.value ≡ ok payload
      → Handles t msg payload t'
  Failure-Handles (unreadable e bad) opens = cc
  Failure-Handles (refused payload' e good fails why) opens = ([], cc)

  Failure-same :
      {t t' : Trace Bytes} {m msg : Message Bytes} {e : Err} {payload : Bytes}
      → Failure o dead_letter retry_topic subject t m e t'
      → o.unwrap msg.value ≡ ok payload
      → m ≡ msg
      → Handles t msg payload t'
  Failure-same {t} {t'} {payload} f opens same =
      subst (λ i. Handles t i payload t') same
        (Failure-Handles f (ap (λ i. o.unwrap i.value) same ∙ opens))

  Round-Handles :
      {t t' : Trace Bytes} {flow : Flow} {msg : Message Bytes} {payload : Bytes}
      → Round o dead_letter retry_topic subject t flow t'
      → o.next_message t ≡ ok msg
      → o.unwrap msg.value ≡ ok payload
      → Handles t msg payload t'
  Round-Handles (unread e bad) next opens = cc
  Round-Handles (completed m p e e' e'') next opens = (committed m ∷ [], cc)
  Round-Handles (retried m p x e e' e'' _ _) next opens =
      (enqueued m (retry_attempt m.headers + 1) ∷ [], cc)
  Round-Handles (unencodable m x y e f e') next opens = Failure-same f opens cc
  Round-Handles (dead_lettered m x bytes e f e') next opens =
      let (before, split) = Failure-same f opens cc in
      (
        dead o dead_letter retry_topic subject m bytes ∷ before,
        ap (λ rest. dead o dead_letter retry_topic subject m bytes ∷ rest) split,
      )

  module _ {Reader : Type 0} (wrap : String → Bytes → Result Bytes) (sum256 : Bytes → Bytes)
      (reader : Reader) (reads : Client (Written Bytes) Bytes) (b : Broker Reader)
      (outgoing : List (String × List ℕ)) (first : IsFirst outgoing) where
    -- Where the envelope opens again, `Publish` writes one message, and the round of the loop that
    -- reads it, wherever Kafka has put it, gives the payload as it was published to the handler before
    -- anything else is done, as a first attempt, as long as the context of `Publish` carries none.
    pub publish-Handles :
        (payload enveloped : Bytes) (partition offset : ℤ) (log : Written Bytes) (t : Trace Bytes)
        → wrap subject payload ≡ ok enveloped
        → o.unwrap enveloped ≡ ok payload
        → o.next_message t ≡ ok (envelope sum256 outgoing enveloped partition offset)
        → (publish (writing wrap sum256 reader reads) outgoing b subject payload log
            ≡ (ok tt, (subject, envelope sum256 outgoing enveloped (pos 0) (pos 0)) ∷ log))
          × (retry_attempt (envelope sum256 outgoing enveloped partition offset).headers ≡ 1)
          × Handles t
              (envelope sum256 outgoing enveloped partition offset)
              payload
              (round (client o) dead_letter retry_topic subject (handler o) t).1
    unfolding publish
    publish-Handles payload enveloped partition offset log t wraps opens next = (
      rw wraps refl,
      first_attempt outgoing first,
      Round-Handles (takes_course o dead_letter retry_topic subject t) next opens,
    )
