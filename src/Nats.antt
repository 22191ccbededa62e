-- ===== src/Nats.antt =====
-- internal/presentation/event_broker/nats: the NATS adapters.
pub mod Commands
pub mod Interfaces
pub mod Validator
pub mod Plan
pub mod Connection
pub mod Broker
pub mod Runtime
pub mod Settings
pub mod Reason
pub mod Mapper
pub mod Subscriber
