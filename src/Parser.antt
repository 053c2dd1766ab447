-- ===== src/Parser.antt =====
-- logging/parse.go, the streaming parser of log lines: its definitions are in State, Handlers and Run.
pub mod State
pub mod Handlers
pub mod Run
pub mod Safety
pub mod Total
pub mod Embed
pub mod Append
pub mod Lines
pub mod Cut
pub mod Reading
pub mod Header
pub mod Body
pub mod RoundTrip
pub mod Batch
pub mod Message
mod Tests
mod Witnesses
