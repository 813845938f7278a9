-- ===== src/Opcode/Convert.antt =====
-- src/common/opcode.h: conversions.
use silverfir.Prelude.{ℕ}

abbrev pub op_i32_wrap_i64 : ℕ
op_i32_wrap_i64 = 0xa7

abbrev pub op_i32_trunc_f32_s : ℕ
op_i32_trunc_f32_s = 0xa8

abbrev pub op_i32_trunc_f32_u : ℕ
op_i32_trunc_f32_u = 0xa9

abbrev pub op_i32_trunc_f64_s : ℕ
op_i32_trunc_f64_s = 0xaa

abbrev pub op_i32_trunc_f64_u : ℕ
op_i32_trunc_f64_u = 0xab

abbrev pub op_i64_extend_i32_s : ℕ
op_i64_extend_i32_s = 0xac

abbrev pub op_i64_extend_i32_u : ℕ
op_i64_extend_i32_u = 0xad

abbrev pub op_i64_trunc_f32_s : ℕ
op_i64_trunc_f32_s = 0xae

abbrev pub op_i64_trunc_f32_u : ℕ
op_i64_trunc_f32_u = 0xaf

abbrev pub op_i64_trunc_f64_s : ℕ
op_i64_trunc_f64_s = 0xb0

abbrev pub op_i64_trunc_f64_u : ℕ
op_i64_trunc_f64_u = 0xb1

abbrev pub op_f32_convert_i32_s : ℕ
op_f32_convert_i32_s = 0xb2

abbrev pub op_f32_convert_i32_u : ℕ
op_f32_convert_i32_u = 0xb3

abbrev pub op_f32_convert_i64_s : ℕ
op_f32_convert_i64_s = 0xb4

abbrev pub op_f32_convert_i64_u : ℕ
op_f32_convert_i64_u = 0xb5

abbrev pub op_f32_demote_f64 : ℕ
op_f32_demote_f64 = 0xb6

abbrev pub op_f64_convert_i32_s : ℕ
op_f64_convert_i32_s = 0xb7

abbrev pub op_f64_convert_i32_u : ℕ
op_f64_convert_i32_u = 0xb8

abbrev pub op_f64_convert_i64_s : ℕ
op_f64_convert_i64_s = 0xb9

abbrev pub op_f64_convert_i64_u : ℕ
op_f64_convert_i64_u = 0xba

abbrev pub op_f64_promote_f32 : ℕ
op_f64_promote_f32 = 0xbb

abbrev pub op_i32_reinterpret_f32 : ℕ
op_i32_reinterpret_f32 = 0xbc

abbrev pub op_i64_reinterpret_f64 : ℕ
op_i64_reinterpret_f64 = 0xbd

abbrev pub op_f32_reinterpret_i32 : ℕ
op_f32_reinterpret_i32 = 0xbe

abbrev pub op_f64_reinterpret_i64 : ℕ
op_f64_reinterpret_i64 = 0xbf

abbrev pub op_i32_extend8_s : ℕ
op_i32_extend8_s = 0xc0

abbrev pub op_i32_extend16_s : ℕ
op_i32_extend16_s = 0xc1

abbrev pub op_i64_extend8_s : ℕ
op_i64_extend8_s = 0xc2

abbrev pub op_i64_extend16_s : ℕ
op_i64_extend16_s = 0xc3

abbrev pub op_i64_extend32_s : ℕ
op_i64_extend32_s = 0xc4
