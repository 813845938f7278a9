-- ===== src/Decoder/Numeric.antt =====
-- src/common/op_decoder.c: the numeric instructions, which have no immediates.
use silverfir.Prelude.{ℕ, ◌∷◌, [], one_of, if◌then◌else◌}
use silverfir.Result.{Result, err, malformed}
use silverfir.Stream.{Stream}
use silverfir.Opcode.{
  op_i32_eqz, op_i64_eqz, op_i32_clz, op_i64_clz, op_i32_ctz, op_i64_ctz, op_i32_popcnt,
  op_i64_popcnt, op_i32_eq, op_i32_ne, op_i32_lt_s, op_i32_lt_u, op_i32_gt_s, op_i32_gt_u,
  op_i32_le_s, op_i32_le_u, op_i32_ge_s, op_i32_ge_u, op_i64_eq, op_i64_ne, op_i64_lt_s,
  op_i64_lt_u, op_i64_gt_s, op_i64_gt_u, op_i64_le_s, op_i64_le_u, op_i64_ge_s, op_i64_ge_u,
  op_i32_add, op_i32_sub, op_i32_mul, op_i32_div_s, op_i32_div_u, op_i32_rem_s, op_i32_rem_u,
  op_i32_and, op_i32_or, op_i32_xor, op_i32_shl, op_i32_shr_s, op_i32_shr_u, op_i32_rotl,
  op_i32_rotr, op_i64_add, op_i64_sub, op_i64_mul, op_i64_div_s, op_i64_div_u, op_i64_rem_s,
  op_i64_rem_u, op_i64_and, op_i64_or, op_i64_xor, op_i64_shl, op_i64_shr_s, op_i64_shr_u,
  op_i64_rotl, op_i64_rotr, op_f32_abs, op_f32_neg, op_f32_ceil, op_f32_floor, op_f32_trunc,
  op_f32_nearest, op_f32_sqrt, op_f64_abs, op_f64_neg, op_f64_ceil, op_f64_floor, op_f64_trunc,
  op_f64_nearest, op_f64_sqrt, op_f32_eq, op_f32_ne, op_f32_lt, op_f32_gt, op_f32_le, op_f32_ge,
  op_f64_eq, op_f64_ne, op_f64_lt, op_f64_gt, op_f64_le, op_f64_ge, op_f32_add, op_f32_sub,
  op_f32_mul, op_f32_div, op_f32_min, op_f32_max, op_f32_copysign, op_f64_add, op_f64_sub,
  op_f64_mul, op_f64_div, op_f64_min, op_f64_max, op_f64_copysign, op_i32_wrap_i64,
  op_i32_trunc_f32_s, op_i32_trunc_f32_u, op_i32_trunc_f64_s, op_i32_trunc_f64_u,
  op_i64_trunc_f32_s, op_i64_trunc_f32_u, op_i64_trunc_f64_s, op_i64_trunc_f64_u,
  op_f32_convert_i32_s, op_f32_convert_i32_u, op_f32_convert_i64_s, op_f32_convert_i64_u,
  op_f64_convert_i32_s, op_f64_convert_i32_u, op_f64_convert_i64_s, op_f64_convert_i64_u,
  op_f32_demote_f64, op_f64_promote_f32, op_i32_reinterpret_f32, op_i64_reinterpret_f64,
  op_f32_reinterpret_i32, op_f64_reinterpret_i64, op_i64_extend_i32_s, op_i64_extend_i32_u,
  op_i32_extend8_s, op_i32_extend16_s, op_i64_extend8_s, op_i64_extend16_s, op_i64_extend32_s,
}
use silverfir.Decoder.Callbacks.{Callbacks}
use silverfir.Decoder.Immediate.{no_imm}

unfoldable pub decode_numeric : {S : Type 0} → Callbacks S → ℕ → Stream → S → Result (Stream × S)
decode_numeric cb opcode code s =
    if one_of opcode (op_i32_eqz ∷ op_i64_eqz ∷ [])
    then no_imm (cb.on_itestop opcode code) code s
    else if one_of opcode
        (op_i32_clz ∷ op_i64_clz ∷ op_i32_ctz ∷ op_i64_ctz ∷ op_i32_popcnt ∷ op_i64_popcnt ∷ [])
    then no_imm (cb.on_iunop opcode code) code s
    else if one_of opcode (
        op_i32_eq ∷ op_i32_ne ∷ op_i32_lt_s ∷ op_i32_lt_u ∷ op_i32_gt_s ∷ op_i32_gt_u ∷ op_i32_le_s
        ∷ op_i32_le_u ∷ op_i32_ge_s ∷ op_i32_ge_u ∷ op_i64_eq ∷ op_i64_ne ∷ op_i64_lt_s
        ∷ op_i64_lt_u ∷ op_i64_gt_s ∷ op_i64_gt_u ∷ op_i64_le_s ∷ op_i64_le_u ∷ op_i64_ge_s
        ∷ op_i64_ge_u ∷ [])
    then no_imm (cb.on_irelop opcode code) code s
    else if one_of opcode (
        op_i32_add ∷ op_i32_sub ∷ op_i32_mul ∷ op_i32_div_s ∷ op_i32_div_u ∷ op_i32_rem_s
        ∷ op_i32_rem_u ∷ op_i32_and ∷ op_i32_or ∷ op_i32_xor ∷ op_i32_shl ∷ op_i32_shr_s
        ∷ op_i32_shr_u ∷ op_i32_rotl ∷ op_i32_rotr ∷ op_i64_add ∷ op_i64_sub ∷ op_i64_mul
        ∷ op_i64_div_s ∷ op_i64_div_u ∷ op_i64_rem_s ∷ op_i64_rem_u ∷ op_i64_and ∷ op_i64_or
        ∷ op_i64_xor ∷ op_i64_shl ∷ op_i64_shr_s ∷ op_i64_shr_u ∷ op_i64_rotl ∷ op_i64_rotr ∷ [])
    then no_imm (cb.on_ibinop opcode code) code s
    else if one_of opcode (
        op_f32_abs ∷ op_f32_neg ∷ op_f32_ceil ∷ op_f32_floor ∷ op_f32_trunc ∷ op_f32_nearest
        ∷ op_f32_sqrt ∷ op_f64_abs ∷ op_f64_neg ∷ op_f64_ceil ∷ op_f64_floor ∷ op_f64_trunc
        ∷ op_f64_nearest ∷ op_f64_sqrt ∷ [])
    then no_imm (cb.on_funop opcode code) code s
    else if one_of opcode (
        op_f32_eq ∷ op_f32_ne ∷ op_f32_lt ∷ op_f32_gt ∷ op_f32_le ∷ op_f32_ge ∷ op_f64_eq
        ∷ op_f64_ne ∷ op_f64_lt ∷ op_f64_gt ∷ op_f64_le ∷ op_f64_ge ∷ [])
    then no_imm (cb.on_frelop opcode code) code s
    else if one_of opcode (
        op_f32_add ∷ op_f32_sub ∷ op_f32_mul ∷ op_f32_div ∷ op_f32_min ∷ op_f32_max
        ∷ op_f32_copysign ∷ op_f64_add ∷ op_f64_sub ∷ op_f64_mul ∷ op_f64_div ∷ op_f64_min
        ∷ op_f64_max ∷ op_f64_copysign ∷ [])
    then no_imm (cb.on_fbinop opcode code) code s
    else if one_of opcode (op_i32_wrap_i64 ∷ [])
    then no_imm (cb.on_wrapop opcode code) code s
    else if one_of opcode (
        op_i32_trunc_f32_s ∷ op_i32_trunc_f32_u ∷ op_i32_trunc_f64_s ∷ op_i32_trunc_f64_u
        ∷ op_i64_trunc_f32_s ∷ op_i64_trunc_f32_u ∷ op_i64_trunc_f64_s ∷ op_i64_trunc_f64_u ∷ [])
    then no_imm (cb.on_truncop opcode code) code s
    else if one_of opcode (
        op_f32_convert_i32_s ∷ op_f32_convert_i32_u ∷ op_f32_convert_i64_s ∷ op_f32_convert_i64_u
        ∷ op_f64_convert_i32_s ∷ op_f64_convert_i32_u ∷ op_f64_convert_i64_s ∷ op_f64_convert_i64_u
        ∷ [])
    then no_imm (cb.on_convertop opcode code) code s
    else if one_of opcode (op_f32_demote_f64 ∷ op_f64_promote_f32 ∷ [])
    then no_imm (cb.on_rankop opcode code) code s
    else if one_of opcode (
        op_i32_reinterpret_f32 ∷ op_i64_reinterpret_f64 ∷ op_f32_reinterpret_i32
        ∷ op_f64_reinterpret_i64 ∷ [])
    then no_imm (cb.on_reinterpretop opcode code) code s
    else if one_of opcode (
        op_i64_extend_i32_s ∷ op_i64_extend_i32_u ∷ op_i32_extend8_s ∷ op_i32_extend16_s
        ∷ op_i64_extend8_s ∷ op_i64_extend16_s ∷ op_i64_extend32_s ∷ [])
    then no_imm (cb.on_extendop opcode code) code s
    else err malformed
