-- ===== src/Examples.antt =====
-- Concrete runs: a small serial device, and each theorem of the library at an input that exercises
-- the code.
pub mod Wire
mod Serial
pub mod Gantry
pub mod Stand
mod Firmware
mod Homing
mod Remote
pub mod Scan
pub mod Helper
mod Arduino
mod Devices
mod Terminal
mod Pseudo
