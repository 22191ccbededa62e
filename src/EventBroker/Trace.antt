-- ===== src/EventBroker/Trace.antt =====
-- A world that keeps the calls that a command handler makes, the last one first. What the service,
-- the broker and the clock answer may depend on all that happened before.
use ofm_mail_service.Prelude.{String, List, ◌∷◌, Option}
use ofm_mail_service.Errors.{Err}
use ofm_mail_service.Effect.{Eff, Result, pure, check}
use ofm_mail_service.Domain.{SendRequest, SendResult}
use ofm_mail_service.EventBroker.{EventBroker}
use ofm_mail_service.EventBroker.Commands.{Wire, SendMailCommand, SendMailResult}

pub data Call (Data Payload : Type 0) : Type 0 where
  sent : SendRequest Data → Call Data Payload
  published : String → Payload → Call Data Payload

module _ (Data Payload : Type 0) where
  abbrev pub Trace : Type 0
  Trace = List (Call Data Payload)

  pub record Outside : Type 0 where
    pub service_answer : SendRequest Data → Trace → Result SendResult
    pub broker_answer : Trace → Option Err
    pub clock : Trace → String
    pub unmarshal : Payload → Result (SendMailCommand Data)
    pub marshal : SendMailResult → Result Payload

module _ {Data Payload : Type 0} (o : Outside Data Payload) where
  abbrev pub service : SendRequest Data → Eff (Trace Data Payload) SendResult
  service req t = (o.service_answer req t, sent req ∷ t)

  abbrev pub broker : EventBroker (Trace Data Payload) Payload
  broker = record {
    publish = λ subject payload t.
        (check (o.broker_answer (published subject payload ∷ t)), published subject payload ∷ t);
    subscribe = λ _ _. pure tt;
    run_pull_consumer = λ _ _. pure tt;
    close = λ t. t;
  }

  abbrev pub wire : Wire (Trace Data Payload) Data Payload
  wire = record { unmarshal = o.unmarshal; marshal = o.marshal; now = λ t. (o.clock t, t) }
