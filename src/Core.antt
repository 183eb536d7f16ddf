-- ===== src/Core.antt =====
-- The realtime core (src/obehy/realtime/core.py): one observation through the state of a feed.
pub mod Context
pub mod Moves
pub mod Recorded
pub mod Shape
pub mod Bare
pub mod Sound
pub mod Again
pub mod Keeps
pub mod Release
pub mod Kept
pub mod Reach
pub mod Window
pub mod Current
pub mod Spares
pub mod Samples
pub mod Examples
pub mod Cases
pub mod Vehicle
pub mod Binding
pub mod Journey
pub mod Follow
pub mod Step
pub mod Cancel
pub mod Observe
pub mod Upkeep
pub mod Rebase
