-- ===== src/Opcode/Prefixed.antt =====
-- src/common/opcode.h: the second numbers behind the prefix 0xfc.
use silverfir.Prelude.{ℕ}

abbrev pub op_i32_trunc_sat_f32_s : ℕ
op_i32_trunc_sat_f32_s = 0x00

abbrev pub op_i32_trunc_sat_f32_u : ℕ
op_i32_trunc_sat_f32_u = 0x01

abbrev pub op_i32_trunc_sat_f64_s : ℕ
op_i32_trunc_sat_f64_s = 0x02

abbrev pub op_i32_trunc_sat_f64_u : ℕ
op_i32_trunc_sat_f64_u = 0x03

abbrev pub op_i64_trunc_sat_f32_s : ℕ
op_i64_trunc_sat_f32_s = 0x04

abbrev pub op_i64_trunc_sat_f32_u : ℕ
op_i64_trunc_sat_f32_u = 0x05

abbrev pub op_i64_trunc_sat_f64_s : ℕ
op_i64_trunc_sat_f64_s = 0x06

abbrev pub op_i64_trunc_sat_f64_u : ℕ
op_i64_trunc_sat_f64_u = 0x07

abbrev pub op_memory_init : ℕ
op_memory_init = 0x08

abbrev pub op_data_drop : ℕ
op_data_drop = 0x09

abbrev pub op_memory_copy : ℕ
op_memory_copy = 0x0a

abbrev pub op_memory_fill : ℕ
op_memory_fill = 0x0b

abbrev pub op_table_init : ℕ
op_table_init = 0x0c

abbrev pub op_elem_drop : ℕ
op_elem_drop = 0x0d

abbrev pub op_table_copy : ℕ
op_table_copy = 0x0e

abbrev pub op_table_grow : ℕ
op_table_grow = 0x0f

abbrev pub op_table_size : ℕ
op_table_size = 0x10

abbrev pub op_table_fill : ℕ
op_table_fill = 0x11
