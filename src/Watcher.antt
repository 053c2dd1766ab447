-- ===== src/Watcher.antt =====
-- cmd/logd/watcher.go: DirReader, which reads what is appended to the files under watched directories.
pub mod Reader
pub mod Scan
pub mod Removed
pub mod Safety
mod Witnesses
