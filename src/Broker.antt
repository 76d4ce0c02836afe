-- ===== src/Broker.antt =====
-- internal/broker: the messages, the topics, the producer, and the consumer's loop.
pub mod Messages
pub mod World
pub mod Producer
pub mod Consumer
