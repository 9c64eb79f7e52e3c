-- ===== src/Cli.antt =====
-- src/cli: the commands that set the program up.
pub mod EnvFile
