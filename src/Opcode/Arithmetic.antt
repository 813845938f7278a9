-- ===== src/Opcode/Arithmetic.antt =====
-- src/common/opcode.h: unary and binary operators.
use silverfir.Prelude.{ℕ}

abbrev pub op_i32_clz : ℕ
op_i32_clz = 0x67

abbrev pub op_i32_ctz : ℕ
op_i32_ctz = 0x68

abbrev pub op_i32_popcnt : ℕ
op_i32_popcnt = 0x69

abbrev pub op_i32_add : ℕ
op_i32_add = 0x6a

abbrev pub op_i32_sub : ℕ
op_i32_sub = 0x6b

abbrev pub op_i32_mul : ℕ
op_i32_mul = 0x6c

abbrev pub op_i32_div_s : ℕ
op_i32_div_s = 0x6d

abbrev pub op_i32_div_u : ℕ
op_i32_div_u = 0x6e

abbrev pub op_i32_rem_s : ℕ
op_i32_rem_s = 0x6f

abbrev pub op_i32_rem_u : ℕ
op_i32_rem_u = 0x70

abbrev pub op_i32_and : ℕ
op_i32_and = 0x71

abbrev pub op_i32_or : ℕ
op_i32_or = 0x72

abbrev pub op_i32_xor : ℕ
op_i32_xor = 0x73

abbrev pub op_i32_shl : ℕ
op_i32_shl = 0x74

abbrev pub op_i32_shr_s : ℕ
op_i32_shr_s = 0x75

abbrev pub op_i32_shr_u : ℕ
op_i32_shr_u = 0x76

abbrev pub op_i32_rotl : ℕ
op_i32_rotl = 0x77

abbrev pub op_i32_rotr : ℕ
op_i32_rotr = 0x78

abbrev pub op_i64_clz : ℕ
op_i64_clz = 0x79

abbrev pub op_i64_ctz : ℕ
op_i64_ctz = 0x7a

abbrev pub op_i64_popcnt : ℕ
op_i64_popcnt = 0x7b

abbrev pub op_i64_add : ℕ
op_i64_add = 0x7c

abbrev pub op_i64_sub : ℕ
op_i64_sub = 0x7d

abbrev pub op_i64_mul : ℕ
op_i64_mul = 0x7e

abbrev pub op_i64_div_s : ℕ
op_i64_div_s = 0x7f

abbrev pub op_i64_div_u : ℕ
op_i64_div_u = 0x80

abbrev pub op_i64_rem_s : ℕ
op_i64_rem_s = 0x81

abbrev pub op_i64_rem_u : ℕ
op_i64_rem_u = 0x82

abbrev pub op_i64_and : ℕ
op_i64_and = 0x83

abbrev pub op_i64_or : ℕ
op_i64_or = 0x84

abbrev pub op_i64_xor : ℕ
op_i64_xor = 0x85

abbrev pub op_i64_shl : ℕ
op_i64_shl = 0x86

abbrev pub op_i64_shr_s : ℕ
op_i64_shr_s = 0x87

abbrev pub op_i64_shr_u : ℕ
op_i64_shr_u = 0x88

abbrev pub op_i64_rotl : ℕ
op_i64_rotl = 0x89

abbrev pub op_i64_rotr : ℕ
op_i64_rotr = 0x8a

abbrev pub op_f32_abs : ℕ
op_f32_abs = 0x8b

abbrev pub op_f32_neg : ℕ
op_f32_neg = 0x8c

abbrev pub op_f32_ceil : ℕ
op_f32_ceil = 0x8d

abbrev pub op_f32_floor : ℕ
op_f32_floor = 0x8e

abbrev pub op_f32_trunc : ℕ
op_f32_trunc = 0x8f

abbrev pub op_f32_nearest : ℕ
op_f32_nearest = 0x90

abbrev pub op_f32_sqrt : ℕ
op_f32_sqrt = 0x91

abbrev pub op_f32_add : ℕ
op_f32_add = 0x92

abbrev pub op_f32_sub : ℕ
op_f32_sub = 0x93

abbrev pub op_f32_mul : ℕ
op_f32_mul = 0x94

abbrev pub op_f32_div : ℕ
op_f32_div = 0x95

abbrev pub op_f32_min : ℕ
op_f32_min = 0x96

abbrev pub op_f32_max : ℕ
op_f32_max = 0x97

abbrev pub op_f32_copysign : ℕ
op_f32_copysign = 0x98

abbrev pub op_f64_abs : ℕ
op_f64_abs = 0x99

abbrev pub op_f64_neg : ℕ
op_f64_neg = 0x9a

abbrev pub op_f64_ceil : ℕ
op_f64_ceil = 0x9b

abbrev pub op_f64_floor : ℕ
op_f64_floor = 0x9c

abbrev pub op_f64_trunc : ℕ
op_f64_trunc = 0x9d

abbrev pub op_f64_nearest : ℕ
op_f64_nearest = 0x9e

abbrev pub op_f64_sqrt : ℕ
op_f64_sqrt = 0x9f

abbrev pub op_f64_add : ℕ
op_f64_add = 0xa0

abbrev pub op_f64_sub : ℕ
op_f64_sub = 0xa1

abbrev pub op_f64_mul : ℕ
op_f64_mul = 0xa2

abbrev pub op_f64_div : ℕ
op_f64_div = 0xa3

abbrev pub op_f64_min : ℕ
op_f64_min = 0xa4

abbrev pub op_f64_max : ℕ
op_f64_max = 0xa5

abbrev pub op_f64_copysign : ℕ
op_f64_copysign = 0xa6
