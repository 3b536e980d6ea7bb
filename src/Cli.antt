-- ===== src/Cli.antt =====
-- internal/cli: the command line.
pub mod Args
