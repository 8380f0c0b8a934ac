-- ===== src/Gantry.antt =====
-- The firmware's motor control (firmware/lib/Gantry).
pub mod Kinematics
pub mod Hardware
pub mod Timer
pub mod State
pub mod Axis
pub mod Isr
