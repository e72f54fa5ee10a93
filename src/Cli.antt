-- ===== src/Cli.antt =====
-- The crate `recall` (cli/src): the command line. A command's options arrive parsed; what `clap`
-- does with the arguments is foreign.
pub mod Json
pub mod Shell
pub mod Options
pub mod Tx
pub mod Credit
pub mod Subnet
pub mod Storage
pub mod Machine
pub mod Timehub
pub mod Bucket
pub mod Account
pub mod Main
pub mod Broadcasts
pub mod Output
pub mod Defaults
