-- ===== src/Runtime.antt =====
-- The worker's runtime (src/obehy/realtime/runtime): the poll scheduler, demand polling and the
-- lookups' token bucket; and the disk guard of the hourly job.
pub mod Poll
pub mod Scheduler
pub mod Backoff
pub mod Demand
pub mod Guard
pub mod Rests
pub mod Bucket
pub mod Limit
pub mod Reads
pub mod Examples
