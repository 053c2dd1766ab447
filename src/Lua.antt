-- ===== src/Lua.antt =====
-- lua/: the sandbox that runs the script of the user.
pub mod Machine
pub mod Path
pub mod Library
pub mod Signals
pub mod Hooks
pub mod Balance
pub mod Leak
pub mod Arguments
pub mod Builtins
pub mod Kafka
pub mod KafkaKey
pub mod Settings
pub mod Frame
pub mod ConfigSet
pub mod Script
pub mod Post
pub mod Messages
pub mod Fetch
pub mod Lifecycle
pub mod Running
pub mod Start
pub mod Loops
pub mod Lock
pub mod Runs
pub mod Deadlock
pub mod Relief
pub mod Reentry
mod Examples
mod Schedules
mod Witnesses
