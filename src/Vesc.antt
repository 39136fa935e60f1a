-- ===== src/Vesc.antt =====
-- src/driver/motor_vesc: the VESC motor controller on a CAN bus.
pub mod Frame
pub mod Command
pub mod Status
pub mod Interface
