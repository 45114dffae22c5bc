-- ===== src/Command.antt =====
-- The command tables and the dispatcher, shell/src/sh_command.c.
pub mod Lookup
pub mod Help
pub mod Validate
pub mod Dispatch
pub mod Emits
