-- ===== src/Kafka/Consumer/Trace.antt =====
-- A world that keeps the calls of the consumer loop, the last one first. The reader, the writers
-- and the handler may answer by all that happened before.
use ofm_mail_service.Prelude.{ℕ, String, List, ◌∷◌, Option}
use ofm_mail_service.Errors.{Err}
use ofm_mail_service.Effect.{Result, ok, err, check}
use ofm_mail_service.EventBroker.{MessageHandler}
use ofm_mail_service.Kafka.Message.{Message}
use ofm_mail_service.Kafka.Consumer.{Client, DlqRecord}

pub data Call (Bytes : Type 0) : Type 0 where
  fetched : Message Bytes → Call Bytes
  fetch_failed : Err → Call Bytes
  handled : Bytes → Result (Unit {0}) → Call Bytes
  committed : Message Bytes → Call Bytes
  enqueued : Message Bytes → ℕ → Call Bytes
  written : String → Message Bytes → Call Bytes

abbrev pub Trace : Type 0 → Type 0
Trace Bytes = List (Call Bytes)

pub record Outside (Bytes : Type 0) : Type 0 where
  pub next_message : Trace Bytes → Result (Message Bytes)
  pub commit_answer : Trace Bytes → Option Err
  pub write_answer : Trace Bytes → Option Err
  pub enqueue_answer : Trace Bytes → Option Err
  pub handler_answer : Bytes → Trace Bytes → Result (Unit {0})
  pub unwrap : Bytes → Result Bytes
  pub marshal_dlq : DlqRecord Bytes → Result Bytes
  pub type_name : Err → String
  pub clock : Trace Bytes → String
  pub max_attempts : ℕ

abbrev pub fetch_call : {Bytes : Type 0} → Result (Message Bytes) → Call Bytes
fetch_call (ok msg) = fetched msg
fetch_call (err e) = fetch_failed e

module _ {Bytes : Type 0} (o : Outside Bytes) where
  abbrev pub client : Client (Trace Bytes) Bytes
  client = record {
    fetch_message = λ t. (o.next_message t, fetch_call (o.next_message t) ∷ t);
    commit_messages = λ msg t. (check (o.commit_answer (committed msg ∷ t)), committed msg ∷ t);
    write_message =
        λ topic msg t. (check (o.write_answer (written topic msg ∷ t)), written topic msg ∷ t);
    enqueue = λ topic msg subject attempt e t.
        (check (o.enqueue_answer (enqueued msg attempt ∷ t)), enqueued msg attempt ∷ t);
    unwrap = o.unwrap;
    marshal_dlq = o.marshal_dlq;
    type_name = o.type_name;
    now = λ t. (o.clock t, t);
    max_attempts = o.max_attempts;
  }

  abbrev pub handler : MessageHandler (Trace Bytes) Bytes
  handler subject payload t =
      (o.handler_answer payload t, handled payload (o.handler_answer payload t) ∷ t)
