-- ===== src/Cli.antt =====
-- cli/src: the command line of a node, its configuration and its HTTP interface.
pub mod Api
pub mod Config
pub mod Commands
pub mod Main
