-- ===== src/Tests.antt =====
-- A small application on the shell, runs of it, and the theorems at concrete inputs.
pub mod Sample
mod Runs
mod Examples
mod Keys
mod Bounds
mod Ports
mod Devices
