-- ===== src/Model.antt =====
-- The data of the realtime core: src/obehy/realtime/facts.py and model.py. An instant is the
-- number of microseconds since the epoch, a date the number of days since it; a number that
-- the source keeps as a float (metres, degrees, seconds of lateness) is a whole number of
-- millionths, and the core only compares such numbers.
pub mod Facts
pub mod Journey
pub mod State
pub mod Effects
