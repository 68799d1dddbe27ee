-- ===== src/Canary.antt =====
-- The canary of a worker recovery in src/qdev_runner/store.py.
pub mod Phase
pub mod Row
pub mod Validate
pub mod Observed
pub mod Transition
pub mod Moves
pub mod Steps
pub mod Writes
pub mod History
pub mod Replay
pub mod Once
pub mod Accepted
pub mod Repeat
pub mod Again
pub mod Bounds
pub mod Proven
pub mod Intent
pub mod Calls
