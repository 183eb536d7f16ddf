-- ===== src/Timeline.antt =====
-- The timeline (src/obehy/realtime/timeline): the timetable on a path (plan.py), the
-- committing of crossings (commit.py), the final repair of the estimates (estimate.py) and the
-- merging of events (fusion.py).
pub mod Estimate
pub mod Timetable
pub mod Brackets
pub mod Placing
pub mod Commit
pub mod Between
pub mod Crossings
pub mod Readings
pub mod Ordered
pub mod Build
pub mod History
pub mod Cut
pub mod Monotone
pub mod Examples
pub mod Cases
