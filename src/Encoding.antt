-- ===== src/Encoding.antt =====
-- tracer/encoding: the byte format of logs and symbols.
pub mod Slices
pub mod Buildin
pub mod Ids
pub mod Log
pub mod Symbols
