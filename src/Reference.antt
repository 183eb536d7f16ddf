-- ===== src/Reference.antt =====
-- Reference data (src/obehy/reference): which registered vehicle a report is (registry.py) and
-- which statement about a vehicle counts (precedence.py, vocabulary.py).
pub mod Registry
pub mod Precedence
pub mod Least
pub mod Best
pub mod Picks
pub mod Examples
