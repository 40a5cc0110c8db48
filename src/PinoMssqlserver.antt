-- ===== src/PinoMssqlserver.antt =====
-- packages/pino-mssqlserver: log entries, written to a database in batches.
pub mod Queue
pub mod Transport
pub mod ConnectionString
pub mod Database
