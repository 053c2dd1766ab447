-- ===== src/Daemon.antt =====
-- cmd/logd/main.go: the flags that choose a mode, and the pipeline from the reader to the hook.
pub mod Flags
pub mod Pipeline
pub mod Input
pub mod Stream
pub mod Format
pub mod Bench
pub mod Usage
pub mod Signals
pub mod Opening
pub mod Main
pub mod Ends
pub mod Success
mod Witnesses
mod Examples
