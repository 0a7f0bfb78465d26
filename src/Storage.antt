-- ===== src/Storage.antt =====
-- tracer/storage: what is kept of a log on disk.
pub mod Disk
pub mod WriteBuffer
pub mod ReadBuffer
pub mod Store
pub mod Stores
pub mod Log
pub mod Index
