-- ===== src/Examples.antt =====
-- Small functions and states, on which the theorems are applied and the code is run.
pub mod Data
mod Blocks
mod Machines
mod Execution
mod Constants
mod Validation
mod Jumps
mod Modules
mod Numbers
