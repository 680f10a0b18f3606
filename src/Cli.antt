-- ===== src/Cli.antt =====
-- tweak-app-cl/src: the command line client.
pub mod Uris
pub mod Order
pub mod Complete
pub mod Tokens
pub mod Merge
pub mod Geometry
mod Tests
