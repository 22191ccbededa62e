-- ===== src/EventBroker.antt =====
-- internal/presentation/event_broker/type.go and the messages of commands.go, which the nats and
-- kafka packages declare alike. JSON and the clock are parameters.
pub mod Commands
pub mod Trace
pub mod Agreement
mod Tests
use ofm_mail_service.Prelude.{String}
use ofm_mail_service.Effect.{Eff, Result}
use ofm_mail_service.Config.{PullConsumerConfig}

-- a handler of one message, by its subject and its payload
abbrev pub MessageHandler : Type 0 → Type 0 → Type 0
MessageHandler W Payload = String → Payload → Eff W (Unit {0})

pub record EventBroker (W Payload : Type 0) : Type 0 where
  pub publish : String → Payload → Eff W (Unit {0})
  pub subscribe : String → MessageHandler W Payload → Eff W (Unit {0})
  pub run_pull_consumer : PullConsumerConfig → MessageHandler W Payload → Eff W (Unit {0})
  pub close : W → W
