-- ===== src/Examples.antt =====
-- The theorems at concrete inputs.
mod Tracing
mod Wire
mod Tables
mod Events
mod Sending
mod Files
mod Stores
mod Searching
mod Parsing
mod Reading
mod Updating
mod Drawing
mod Sorting
mod Narrowing
mod Requesting
