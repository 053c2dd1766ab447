-- ===== src/Http.antt =====
-- http/http.go: the asynchronous client, its workers, and the interleavings of both.
pub mod Config
pub mod Worker
pub mod Client
pub mod System
pub mod Invariant
pub mod Finish
pub mod Serve
pub mod Proceed
pub mod Steps
pub mod Delivery
pub mod Routing
pub mod Witnesses
pub mod Refused
pub mod Work
pub mod Bound
pub mod Ready
pub mod Progress
pub mod Liveness
pub mod Fares
pub mod Returns
pub mod Examples
