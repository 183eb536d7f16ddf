-- ===== src/Emit.antt =====
-- Outputs (src/obehy/realtime/emit): which reports of several sources are one vehicle
-- (pairing.py), and which vehicles stand for their journey (represent.py).
pub mod Pairing
pub mod Tick
pub mod Partners
pub mod Observe
pub mod Evidence
pub mod Stored
pub mod Visit
pub mod Cluster
pub mod Represent
pub mod Stands
pub mod Leader
pub mod Grouping
pub mod Representing
pub mod Examples
