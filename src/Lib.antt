-- ===== src/Lib.antt =====
-- Silverfir is an interpreter for WebAssembly written in C. A module is parsed, each function body
-- is validated in one pass, and an interpreter runs the body in place, with a table of jumps that
-- the validation has written. This library models the path from the bytes of a module to its
-- validated functions, and the instructions that run them: the byte stream, the LEB128 decoders,
-- the parser of the sections, the opcode decoder with its callbacks, the validator, which is a
-- table of such callbacks, and the handlers of the interpreter, which follow the records of the
-- validator's jump table.
--
-- The parts and their files:
-- - Prelude: Boolean tests, lists and lookups over native numbers, fixed-width words, bits.
-- - Result: src/utils/result.h, errors as values. `fault` stands for undefined behaviour, a read
--   through a null pointer or outside an array. Result/Post: what holds of a result.
-- - Stream, Stream/Leb, Stream/Unchecked: src/utils/stream.h. `read_vu32` is `stream_read_vu32`,
--   and so on; `read_vu32_unchecked` is `__stream_read_vu32_unchecked`. Stream/Grammar is the
--   grammar of the binary format, which the code is compared with; Stream/Moves says how far each
--   read moves.
-- - Opcode: src/common/opcode.h. Format: the value types of src/common/wasm_format.h.
-- - Module: the records of src/runtime/module.h, and `parse_types` of src/runtime/parser.c.
-- - Parser: the rest of src/runtime/parser.c, and `module_init` of src/runtime/module.c. Types,
--   Imports, Definitions, Exports, Elements, Bodies and Segments are the sections, Binary is
--   `parse_module`. WellFormed says what an accepted module promises and follows it through the
--   sections, Locals does so for the counts of local variables, Entry hands its functions to the
--   validator.
-- - Decoder: src/common/op_decoder.c. `decode_function` is a loop of turns, `decode_op` is its
--   switch, a ladder of tests in the order of the cases, split into groups of instructions.
--   Callbacks is `op_decoder_callbacks`; a callback that is null is one that returns its payload.
--   Contract and Progress carry a contract of the callbacks through the switch.
-- - Validator: src/runtime/validator.c. Context has the state and its helpers (`set_unreachable`
--   is `unreachable`), Control, Branch, Variable, Memory, Numeric and Bulk the callbacks, each
--   named as in the source without `validator_`, Link is `validator_on_decode_end`, with
--   Link/Stored on what it leaves in the jump table, Callbacks the table and `validate_func`.
--   Safety shows that the callbacks stay within their vectors, Run follows whole runs, Targets is
--   about the offsets of branches, Signature about the numeric instructions.
-- - Interpreter: src/interpreter/in_place_dt.c, one function for each instruction: `exec_br` is
--   `OP(br)`, `exec_memory_copy` the case of that name behind the prefix 0xfc. Control, Variable,
--   Memory and Bulk have the handlers, Numeric the operators of src/utils/smath.h,
--   Numeric/Handlers the instructions that use them, by opcode, Segments `table_init` and the
--   instructions on references. Constant is src/interpreter/const_expr_eval.c, with Constant/Runs
--   on the instructions that a reduction comes to. Bytes and Filling are about reads, writes and
--   copies; Access, Moves, Fills and Branching about instructions on memories, tables and the jump
--   table.
-- - Examples: small functions and states, on which the theorems are applied and the code is run.
--
-- How the code is modelled. State is passed explicitly: a handler takes the context and returns a
-- result with the next one. A vector that serves as a stack is a list with its back first, a
-- vector that is indexed is a list in order. The jump table `f->jt`, which the source changes
-- through the function, is a field of the context. Numbers are native, and u16, u32 and u64 wrap
-- around where the source casts or computes on that width; a signed number is its bit pattern. The
-- decoding loop runs on fuel: the length of the code and one more, which is enough since a turn
-- takes a byte at least. The loops of the LEB128 decoders count the rounds that the maximal length
-- leaves. The loops of the parser over expressions and sections run on the bytes that are left and
-- one more; out of fuel they fault, which is proved not to happen. So does the loop of a constant
-- expression. `is_valid_utf8`, a copy from another project, is a parameter of the parser of which
-- nothing is assumed. A vector that is `fixed` cannot be reserved again; its flag is kept where an
-- input can reach that.
--
-- Not modelled: allocation does not fail, and vectors are unbounded lists. The text of an error is
-- dropped and its kind kept. An error drops the context, so what a failed validation has written
-- to the function is not kept. Assertions are those of a release build, which checks none.
-- Callbacks that only write to the log return their payload. The host is little-endian. A handler
-- of the interpreter takes the machine with `pc` behind the opcode; the operand stack has no upper
-- bound, an index into the store stands for an address, and a value is its 64 bits, with 0 where a
-- write to a 32-bit member of a new value leaves the upper half open. Signed `>>` copies the sign,
-- as compilers document. Calls, the interpreter's loop, float instructions, the second
-- interpreter, linking, the IR builder, WASI and the containers are outside this library.
pub mod Prelude
pub mod Result
pub mod Stream
pub mod Opcode
pub mod Format
pub mod Module
pub mod Parser
pub mod Decoder
pub mod Validator
pub mod Interpreter
pub mod Examples
