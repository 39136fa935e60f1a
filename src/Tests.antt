-- ===== src/Tests.antt =====
-- The theorems at concrete inputs, by component.
pub mod Rings
pub mod Frames
pub mod Motors
pub mod Registers
pub mod Events
pub mod Robots
mod Planners
mod Spaces
mod Receivers
mod Grids
