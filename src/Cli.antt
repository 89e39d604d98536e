-- ===== src/Cli.antt =====
-- internal/cli: what the commands do before they read or query anything, and the `cost` command.
pub mod Auth
pub mod CostOptions
pub mod CostCommand
