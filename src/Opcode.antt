-- ===== src/Opcode.antt =====
-- src/common/opcode.h: the numbers of the opcodes, as the enumeration `wasm_opcode` gives them.
mod Control
mod Memory
mod Compare
mod Arithmetic
mod Convert
mod Prefixed
pub use Control.*
pub use Memory.*
pub use Compare.*
pub use Arithmetic.*
pub use Convert.*
pub use Prefixed.*
