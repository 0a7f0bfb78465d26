-- ===== src/Logger.antt =====
-- tracer/logger: what the tracer's runtime does with the logs it makes.
pub mod RetrySender
