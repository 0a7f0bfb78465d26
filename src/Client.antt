-- ===== src/Client.antt =====
-- tracer/protocol/client.go and buffer.go: the tracer's end of the connection.
pub mod Sender
pub mod Handler
pub mod Serving
pub mod BufferOption
