-- ===== src/Tests.antt =====
-- The theorems on the smaller packages, at concrete values.
pub mod Messages
pub mod Jetstream
pub mod Sockets
pub mod Loggers
pub mod Connections
pub mod Queries
pub mod Support
