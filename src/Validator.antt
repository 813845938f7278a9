-- ===== src/Validator.antt =====
-- src/runtime/validator.c: the callbacks that check a function body while `decode_function` reads it.
pub mod Context
pub mod Control
pub mod Branch
pub mod Variable
pub mod Memory
pub mod Numeric
pub mod Bulk
pub mod Link
pub mod Callbacks
pub mod Safety
pub mod Run
pub mod Targets
pub mod Offsets
pub mod Signature
