-- ===== src/Tracing.antt =====
-- Spans: packages/opentracing/src/spanManager.ts and tracingUtils.ts, src/utils.ts and
-- src/instrumentation.ts of packages/opentelemetry-instrumentation-ws, and the log lines on them.
pub mod Scope
pub mod Spans
pub mod Websocket
pub mod Logs
pub mod External
