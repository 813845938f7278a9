-- ===== src/Opcode/Compare.antt =====
-- src/common/opcode.h: tests and comparisons.
use silverfir.Prelude.{ℕ}

abbrev pub op_i32_eqz : ℕ
op_i32_eqz = 0x45

abbrev pub op_i32_eq : ℕ
op_i32_eq = 0x46

abbrev pub op_i32_ne : ℕ
op_i32_ne = 0x47

abbrev pub op_i32_lt_s : ℕ
op_i32_lt_s = 0x48

abbrev pub op_i32_lt_u : ℕ
op_i32_lt_u = 0x49

abbrev pub op_i32_gt_s : ℕ
op_i32_gt_s = 0x4a

abbrev pub op_i32_gt_u : ℕ
op_i32_gt_u = 0x4b

abbrev pub op_i32_le_s : ℕ
op_i32_le_s = 0x4c

abbrev pub op_i32_le_u : ℕ
op_i32_le_u = 0x4d

abbrev pub op_i32_ge_s : ℕ
op_i32_ge_s = 0x4e

abbrev pub op_i32_ge_u : ℕ
op_i32_ge_u = 0x4f

abbrev pub op_i64_eqz : ℕ
op_i64_eqz = 0x50

abbrev pub op_i64_eq : ℕ
op_i64_eq = 0x51

abbrev pub op_i64_ne : ℕ
op_i64_ne = 0x52

abbrev pub op_i64_lt_s : ℕ
op_i64_lt_s = 0x53

abbrev pub op_i64_lt_u : ℕ
op_i64_lt_u = 0x54

abbrev pub op_i64_gt_s : ℕ
op_i64_gt_s = 0x55

abbrev pub op_i64_gt_u : ℕ
op_i64_gt_u = 0x56

abbrev pub op_i64_le_s : ℕ
op_i64_le_s = 0x57

abbrev pub op_i64_le_u : ℕ
op_i64_le_u = 0x58

abbrev pub op_i64_ge_s : ℕ
op_i64_ge_s = 0x59

abbrev pub op_i64_ge_u : ℕ
op_i64_ge_u = 0x5a

abbrev pub op_f32_eq : ℕ
op_f32_eq = 0x5b

abbrev pub op_f32_ne : ℕ
op_f32_ne = 0x5c

abbrev pub op_f32_lt : ℕ
op_f32_lt = 0x5d

abbrev pub op_f32_gt : ℕ
op_f32_gt = 0x5e

abbrev pub op_f32_le : ℕ
op_f32_le = 0x5f

abbrev pub op_f32_ge : ℕ
op_f32_ge = 0x60

abbrev pub op_f64_eq : ℕ
op_f64_eq = 0x61

abbrev pub op_f64_ne : ℕ
op_f64_ne = 0x62

abbrev pub op_f64_lt : ℕ
op_f64_lt = 0x63

abbrev pub op_f64_gt : ℕ
op_f64_gt = 0x64

abbrev pub op_f64_le : ℕ
op_f64_le = 0x65

abbrev pub op_f64_ge : ℕ
op_f64_ge = 0x66
