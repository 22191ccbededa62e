-- ===== src/Kafka.antt =====
-- internal/presentation/event_broker/kafka: the Kafka adapters.
pub mod Interfaces
pub mod Reason
pub mod Mapper
pub mod Subscriber
pub mod Message
pub mod Consumer
pub mod Broker
pub mod Exchange
