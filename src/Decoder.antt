-- ===== src/Decoder.antt =====
-- src/common/op_decoder.c: the loop that reads a function body and hands each instruction to a table of
-- callbacks. The proofs about any table of callbacks are in the modules below.
pub mod Callbacks
pub mod BlockType
pub mod Immediate
pub mod Control
pub mod Operand
pub mod Numeric
pub mod Prefixed
pub mod Loop
pub mod Contract
pub mod Progress
