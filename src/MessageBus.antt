-- ===== src/MessageBus.antt =====
-- packages/message-bus: publishing, subscribing, and the transports behind them.
pub mod Utf8
pub mod Envelope
pub mod Bus
pub mod SerDes
pub mod Subscriptions
pub mod Connection
pub mod Jetstream
pub mod Nats
pub mod Rusi
pub mod Timeout
pub mod Emitters
pub mod Request
