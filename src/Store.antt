-- ===== src/Store.antt =====
-- src/qdev_runner/store.py, the controller's durable state.
pub mod Tables
pub mod Queue
pub mod Release
pub mod Workers
pub mod Payload
pub mod Claim
pub mod Holds
pub mod Backfill
pub mod Invariant
pub mod Steps
pub mod Changes
pub mod Transitions
pub mod Reachable
pub mod Beside
pub mod Fenced
pub mod Lookup
pub mod Outcomes
pub mod Staleness
pub mod Reissue
pub mod Schedules
pub mod Intents
pub mod Retries
