-- ===== src/Opcode/Memory.antt =====
-- src/common/opcode.h: memory instructions and constants.
use silverfir.Prelude.{ℕ}

abbrev pub op_i32_load : ℕ
op_i32_load = 0x28

abbrev pub op_i64_load : ℕ
op_i64_load = 0x29

abbrev pub op_f32_load : ℕ
op_f32_load = 0x2a

abbrev pub op_f64_load : ℕ
op_f64_load = 0x2b

abbrev pub op_i32_load8_s : ℕ
op_i32_load8_s = 0x2c

abbrev pub op_i32_load8_u : ℕ
op_i32_load8_u = 0x2d

abbrev pub op_i32_load16_s : ℕ
op_i32_load16_s = 0x2e

abbrev pub op_i32_load16_u : ℕ
op_i32_load16_u = 0x2f

abbrev pub op_i64_load8_s : ℕ
op_i64_load8_s = 0x30

abbrev pub op_i64_load8_u : ℕ
op_i64_load8_u = 0x31

abbrev pub op_i64_load16_s : ℕ
op_i64_load16_s = 0x32

abbrev pub op_i64_load16_u : ℕ
op_i64_load16_u = 0x33

abbrev pub op_i64_load32_s : ℕ
op_i64_load32_s = 0x34

abbrev pub op_i64_load32_u : ℕ
op_i64_load32_u = 0x35

abbrev pub op_i32_store : ℕ
op_i32_store = 0x36

abbrev pub op_i64_store : ℕ
op_i64_store = 0x37

abbrev pub op_f32_store : ℕ
op_f32_store = 0x38

abbrev pub op_f64_store : ℕ
op_f64_store = 0x39

abbrev pub op_i32_store8 : ℕ
op_i32_store8 = 0x3a

abbrev pub op_i32_store16 : ℕ
op_i32_store16 = 0x3b

abbrev pub op_i64_store8 : ℕ
op_i64_store8 = 0x3c

abbrev pub op_i64_store16 : ℕ
op_i64_store16 = 0x3d

abbrev pub op_i64_store32 : ℕ
op_i64_store32 = 0x3e

abbrev pub op_memory_size : ℕ
op_memory_size = 0x3f

abbrev pub op_memory_grow : ℕ
op_memory_grow = 0x40

abbrev pub op_i32_const : ℕ
op_i32_const = 0x41

abbrev pub op_i64_const : ℕ
op_i64_const = 0x42

abbrev pub op_f32_const : ℕ
op_f32_const = 0x43

abbrev pub op_f64_const : ℕ
op_f64_const = 0x44
