-- ===== src/Cli.antt =====
-- The commands of the command line: cmd.
pub mod Clients
pub mod Workers
