-- ===== src/Ports.antt =====
-- The ports, shell/ports: adapters that install a transport in a shell and feed it what arrives, and the
-- keys of a console.
pub mod Over
pub mod Tcp
pub mod Baremetal
pub mod Freertos
pub mod Windows
