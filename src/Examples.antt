-- ===== src/Examples.antt =====
-- Runs of the code of rust/src on small inputs.
pub mod Connections
pub mod Files
pub mod Processes
pub mod Chains
pub mod Peers
pub mod Log
pub mod Tasks
pub mod Literals
