-- ===== src/Validator/Numeric.antt =====
-- src/runtime/validator.c: the numeric instructions. POP1_PUSH and POP2_PUSH pop operands of one type
-- and push the result.
use silverfir.Prelude.{ℕ, ◌∷◌, [], one_of, ◌==◌, if◌then◌else◌}
use silverfir.Result.{Result, err, general, ◌>>=◌}
use silverfir.Format.{TypeId, type_id_i32, type_id_i64, type_id_f32, type_id_f64}
use silverfir.Opcode.{
  op_i32_clz, op_i32_ctz, op_i32_popcnt, op_i64_clz, op_i64_ctz, op_i64_popcnt, op_i32_eq,
  op_i32_ne, op_i32_lt_s, op_i32_lt_u, op_i32_gt_s, op_i32_gt_u, op_i32_le_s, op_i32_le_u,
  op_i32_ge_s, op_i32_ge_u, op_i64_eq, op_i64_ne, op_i64_lt_s, op_i64_lt_u, op_i64_gt_s,
  op_i64_gt_u, op_i64_le_s, op_i64_le_u, op_i64_ge_s, op_i64_ge_u, op_i32_add, op_i32_sub,
  op_i32_mul, op_i32_div_s, op_i32_div_u, op_i32_rem_s, op_i32_rem_u, op_i32_and, op_i32_or,
  op_i32_xor, op_i32_shl, op_i32_shr_s, op_i32_shr_u, op_i32_rotl, op_i32_rotr, op_i64_add,
  op_i64_sub, op_i64_mul, op_i64_div_s, op_i64_div_u, op_i64_rem_s, op_i64_rem_u, op_i64_and,
  op_i64_or, op_i64_xor, op_i64_shl, op_i64_shr_s, op_i64_shr_u, op_i64_rotl, op_i64_rotr,
  op_f32_abs, op_f32_neg, op_f32_ceil, op_f32_floor, op_f32_trunc, op_f32_nearest, op_f32_sqrt,
  op_f64_abs, op_f64_neg, op_f64_ceil, op_f64_floor, op_f64_trunc, op_f64_nearest, op_f64_sqrt,
  op_f32_eq, op_f32_ne, op_f32_lt, op_f32_gt, op_f32_le, op_f32_ge, op_f64_eq, op_f64_ne, op_f64_lt,
  op_f64_gt, op_f64_le, op_f64_ge, op_f32_add, op_f32_sub, op_f32_mul, op_f32_div, op_f32_min,
  op_f32_max, op_f32_copysign, op_f64_add, op_f64_sub, op_f64_mul, op_f64_div, op_f64_min,
  op_f64_max, op_f64_copysign, op_i32_trunc_f32_s, op_i32_trunc_f32_u, op_i32_trunc_f64_s,
  op_i32_trunc_f64_u, op_i64_trunc_f32_s, op_i64_trunc_f32_u, op_i64_trunc_f64_s,
  op_i64_trunc_f64_u, op_f32_convert_i32_s, op_f32_convert_i32_u, op_f32_convert_i64_s,
  op_f32_convert_i64_u, op_f64_convert_i32_s, op_f64_convert_i32_u, op_f64_convert_i64_s,
  op_f64_convert_i64_u, op_f32_demote_f64, op_f64_promote_f32, op_i32_reinterpret_f32,
  op_i64_reinterpret_f64, op_f32_reinterpret_i32, op_f64_reinterpret_i64, op_i64_extend_i32_s,
  op_i64_extend_i32_u, op_i32_extend8_s, op_i32_extend16_s, op_i64_extend8_s, op_i64_extend16_s,
  op_i64_extend32_s, op_i32_eqz,
}
use silverfir.Validator.Context.{Context, push_val, pop_drop}

unfoldable pub pop1_push : TypeId → TypeId → Context → Result Context
pop1_push pop_type push_type ctx = do ctx1 ← pop_drop pop_type ctx; push_val push_type ctx1

unfoldable pub pop2_push : TypeId → TypeId → Context → Result Context
pop2_push pop_type push_type ctx = do
  ctx1 ← pop_drop pop_type ctx
  ctx2 ← pop_drop pop_type ctx1
  push_val push_type ctx2

unfoldable pub on_itestop : ℕ → Context → Result Context
on_itestop opcode ctx =
    if opcode == op_i32_eqz
    then pop1_push type_id_i32 type_id_i32 ctx
    else pop1_push type_id_i64 type_id_i32 ctx

unfoldable pub on_iunop : ℕ → Context → Result Context
unfolding one_of
on_iunop opcode ctx =
    if one_of opcode (op_i32_clz ∷ op_i32_ctz ∷ op_i32_popcnt ∷ [])
    then pop1_push type_id_i32 type_id_i32 ctx
    else if one_of opcode (op_i64_clz ∷ op_i64_ctz ∷ op_i64_popcnt ∷ [])
    then pop1_push type_id_i64 type_id_i64 ctx
    else err general

unfoldable pub on_irelop : ℕ → Context → Result Context
unfolding one_of
on_irelop opcode ctx =
    if one_of opcode (
      op_i32_eq ∷ op_i32_ne ∷ op_i32_lt_s ∷ op_i32_lt_u ∷ op_i32_gt_s ∷ op_i32_gt_u ∷ op_i32_le_s
      ∷ op_i32_le_u ∷ op_i32_ge_s ∷ op_i32_ge_u ∷ [])
    then pop2_push type_id_i32 type_id_i32 ctx
    else if one_of opcode (
        op_i64_eq ∷ op_i64_ne ∷ op_i64_lt_s ∷ op_i64_lt_u ∷ op_i64_gt_s ∷ op_i64_gt_u ∷ op_i64_le_s
        ∷ op_i64_le_u ∷ op_i64_ge_s ∷ op_i64_ge_u ∷ [])
    then pop2_push type_id_i64 type_id_i32 ctx
    else err general

unfoldable pub on_ibinop : ℕ → Context → Result Context
unfolding one_of
on_ibinop opcode ctx =
    if one_of opcode (
      op_i32_add ∷ op_i32_sub ∷ op_i32_mul ∷ op_i32_div_s ∷ op_i32_div_u ∷ op_i32_rem_s
      ∷ op_i32_rem_u ∷ op_i32_and ∷ op_i32_or ∷ op_i32_xor ∷ op_i32_shl ∷ op_i32_shr_s
      ∷ op_i32_shr_u ∷ op_i32_rotl ∷ op_i32_rotr ∷ [])
    then pop2_push type_id_i32 type_id_i32 ctx
    else if one_of opcode (
        op_i64_add ∷ op_i64_sub ∷ op_i64_mul ∷ op_i64_div_s ∷ op_i64_div_u ∷ op_i64_rem_s
        ∷ op_i64_rem_u ∷ op_i64_and ∷ op_i64_or ∷ op_i64_xor ∷ op_i64_shl ∷ op_i64_shr_s
        ∷ op_i64_shr_u ∷ op_i64_rotl ∷ op_i64_rotr ∷ [])
    then pop2_push type_id_i64 type_id_i64 ctx
    else err general

unfoldable pub on_funop : ℕ → Context → Result Context
unfolding one_of
on_funop opcode ctx =
    if one_of opcode (
      op_f32_abs ∷ op_f32_neg ∷ op_f32_ceil ∷ op_f32_floor ∷ op_f32_trunc ∷ op_f32_nearest
      ∷ op_f32_sqrt ∷ [])
    then pop1_push type_id_f32 type_id_f32 ctx
    else if one_of opcode (
        op_f64_abs ∷ op_f64_neg ∷ op_f64_ceil ∷ op_f64_floor ∷ op_f64_trunc ∷ op_f64_nearest
        ∷ op_f64_sqrt ∷ [])
    then pop1_push type_id_f64 type_id_f64 ctx
    else err general

unfoldable pub on_frelop : ℕ → Context → Result Context
unfolding one_of
on_frelop opcode ctx =
    if one_of opcode (op_f32_eq ∷ op_f32_ne ∷ op_f32_lt ∷ op_f32_gt ∷ op_f32_le ∷ op_f32_ge ∷ [])
    then pop2_push type_id_f32 type_id_i32 ctx
    else if one_of opcode
        (op_f64_eq ∷ op_f64_ne ∷ op_f64_lt ∷ op_f64_gt ∷ op_f64_le ∷ op_f64_ge ∷ [])
    then pop2_push type_id_f64 type_id_i32 ctx
    else err general

unfoldable pub on_fbinop : ℕ → Context → Result Context
unfolding one_of
on_fbinop opcode ctx =
    if one_of opcode (
      op_f32_add ∷ op_f32_sub ∷ op_f32_mul ∷ op_f32_div ∷ op_f32_min ∷ op_f32_max ∷ op_f32_copysign
      ∷ [])
    then pop2_push type_id_f32 type_id_f32 ctx
    else if one_of opcode (
        op_f64_add ∷ op_f64_sub ∷ op_f64_mul ∷ op_f64_div ∷ op_f64_min ∷ op_f64_max
        ∷ op_f64_copysign ∷ [])
    then pop2_push type_id_f64 type_id_f64 ctx
    else err general

unfoldable pub on_truncop : ℕ → Context → Result Context
unfolding one_of
on_truncop opcode ctx =
    if one_of opcode (op_i32_trunc_f32_s ∷ op_i32_trunc_f32_u ∷ [])
    then pop1_push type_id_f32 type_id_i32 ctx
    else if one_of opcode (op_i32_trunc_f64_s ∷ op_i32_trunc_f64_u ∷ [])
    then pop1_push type_id_f64 type_id_i32 ctx
    else if one_of opcode (op_i64_trunc_f32_s ∷ op_i64_trunc_f32_u ∷ [])
    then pop1_push type_id_f32 type_id_i64 ctx
    else if one_of opcode (op_i64_trunc_f64_s ∷ op_i64_trunc_f64_u ∷ [])
    then pop1_push type_id_f64 type_id_i64 ctx
    else err general

unfoldable pub on_convertop : ℕ → Context → Result Context
unfolding one_of
on_convertop opcode ctx =
    if one_of opcode (op_f32_convert_i32_s ∷ op_f32_convert_i32_u ∷ [])
    then pop1_push type_id_i32 type_id_f32 ctx
    else if one_of opcode (op_f32_convert_i64_s ∷ op_f32_convert_i64_u ∷ [])
    then pop1_push type_id_i64 type_id_f32 ctx
    else if one_of opcode (op_f64_convert_i32_s ∷ op_f64_convert_i32_u ∷ [])
    then pop1_push type_id_i32 type_id_f64 ctx
    else if one_of opcode (op_f64_convert_i64_s ∷ op_f64_convert_i64_u ∷ [])
    then pop1_push type_id_i64 type_id_f64 ctx
    else err general

unfoldable pub on_rankop : ℕ → Context → Result Context
unfolding one_of
on_rankop opcode ctx =
    if one_of opcode (op_f32_demote_f64 ∷ [])
    then pop1_push type_id_f64 type_id_f32 ctx
    else if one_of opcode (op_f64_promote_f32 ∷ [])
    then pop1_push type_id_f32 type_id_f64 ctx
    else err general

unfoldable pub on_reinterpretop : ℕ → Context → Result Context
unfolding one_of
on_reinterpretop opcode ctx =
    if one_of opcode (op_i32_reinterpret_f32 ∷ [])
    then pop1_push type_id_f32 type_id_i32 ctx
    else if one_of opcode (op_i64_reinterpret_f64 ∷ [])
    then pop1_push type_id_f64 type_id_i64 ctx
    else if one_of opcode (op_f32_reinterpret_i32 ∷ [])
    then pop1_push type_id_i32 type_id_f32 ctx
    else if one_of opcode (op_f64_reinterpret_i64 ∷ [])
    then pop1_push type_id_i64 type_id_f64 ctx
    else err general

unfoldable pub on_extendop : ℕ → Context → Result Context
unfolding one_of
on_extendop opcode ctx =
    if one_of opcode (op_i64_extend_i32_s ∷ op_i64_extend_i32_u ∷ [])
    then pop1_push type_id_i32 type_id_i64 ctx
    else if one_of opcode (op_i32_extend8_s ∷ op_i32_extend16_s ∷ [])
    then pop1_push type_id_i32 type_id_i32 ctx
    else if one_of opcode (op_i64_extend8_s ∷ op_i64_extend16_s ∷ op_i64_extend32_s ∷ [])
    then pop1_push type_id_i64 type_id_i64 ctx
    else err general

unfoldable pub on_wrapop : Context → Result Context
on_wrapop ctx = pop1_push type_id_i64 type_id_i32 ctx
