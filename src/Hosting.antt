-- ===== src/Hosting.antt =====
-- What a process needs around its work: packages/graceful-shutdown and
-- packages/key-per-file-configuration.
pub mod Shutdown
pub mod KeyPerFile
