-- ===== src/RobotBase.antt =====
-- src/control/robot_base.
pub mod Actuators
