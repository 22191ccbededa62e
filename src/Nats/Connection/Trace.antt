-- ===== src/Nats/Connection/Trace.antt =====
-- A world that keeps the calls on a connection with their outcomes, the last one first. The server
-- may answer each by all that happened before.
use ofm_mail_service.Prelude.{ℕ, suc, String, List, [], ◌∷◌, Option, none}
use ofm_mail_service.Errors.{Err}
use ofm_mail_service.Effect.{Eff, check}
use ofm_mail_service.Config.{PullConsumerConfig}
use ofm_mail_service.Nats.Connection.{Conn, ConnectOptions, ConsumerConfig, StreamConfig}

pub data Command (Payload : Type 0) : Type 0 where
  connect : String → ConnectOptions → Command Payload
  publish_msg : String → Payload → Command Payload
  subscribe : String → Command Payload
  flush : ℕ → Command Payload
  jet_stream : Command Payload
  add_consumer : String → ConsumerConfig → Command Payload
  update_consumer : String → ConsumerConfig → Command Payload
  pull_subscribe : String → String → String → Command Payload
  add_stream : StreamConfig → Command Payload
  update_stream : StreamConfig → Command Payload

pub data Call (Payload : Type 0) : Type 0 where
  call : Command Payload → Option Err → Call Payload
  closed : Call Payload
  consumer_started : PullConsumerConfig → Call Payload

abbrev pub Trace : Type 0 → Type 0
Trace Payload = List (Call Payload)

module _ {Payload : Type 0} where
  abbrev pub starts : Trace Payload → ℕ
  starts [] = 0
  starts (consumer_started cfg ∷ t) = suc (starts t)
  starts (_ ∷ t) = starts t

  -- connections that were opened, and closed
  abbrev pub opened : Trace Payload → ℕ
  opened [] = 0
  opened (call (connect url options) none ∷ t) = suc (opened t)
  opened (_ ∷ t) = opened t

  abbrev pub closes : Trace Payload → ℕ
  closes [] = 0
  closes (closed ∷ t) = suc (closes t)
  closes (_ ∷ t) = closes t

  module _ (answer : Command Payload → Trace Payload → Option Err) where
    abbrev pub recorded : Command Payload → Eff (Trace Payload) (Unit {0})
    recorded c t = (check (answer c t), call c (answer c t) ∷ t)

    abbrev pub conn : Conn (Trace Payload) Payload
    conn = record {
      connect = λ url options. recorded (connect url options);
      close = λ t. closed ∷ t;
      publish_msg = λ subject payload. recorded (publish_msg subject payload);
      subscribe = λ subject _. recorded (subscribe subject);
      flush_with_context = λ time. recorded (flush time);
      jet_stream = recorded jet_stream;
      add_consumer = λ stream cfg. recorded (add_consumer stream cfg);
      update_consumer = λ stream cfg. recorded (update_consumer stream cfg);
      pull_subscribe = λ subject durable stream. recorded (pull_subscribe subject durable stream);
      add_stream = λ cfg. recorded (add_stream cfg);
      update_stream = λ cfg. recorded (update_stream cfg);
      start_consumer = λ cfg _ t. consumer_started cfg ∷ t;
    }
