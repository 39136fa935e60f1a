-- ===== src/Ddsm210.antt =====
-- src/driver/motor_waveshare: the DDSM-210 motor driver. `Frame` is the codec of its serial frames.
pub mod Checksum
pub mod Frame
pub mod Driver
