-- ===== src/Egress.antt =====
-- Proxied egress (src/obehy/realtime/runtime/egress.py): the proxy pool, the requests through
-- it, and the cursors of delta polling.
pub mod Pool
pub mod Rotation
pub mod Requests
pub mod Answers
pub mod Examples
