-- ===== src/Validator/Bulk.antt =====
-- src/runtime/validator.c: references, and the instructions behind the prefix 0xfc.
use silverfir.Prelude.{
  ℕ, ◌∷◌, [], none, some, length, get_elem?, one_of, leb, ◌==◌, ◌!=◌, if◌then◌else◌,
}
use silverfir.Result.{Result, ok, err, general, invalid, ◌>>=◌}
use silverfir.Format.{
  TypeId, type_id_i32, type_id_i64, type_id_f32, type_id_f64, type_id_ref, type_id_funcref,
}
use silverfir.Opcode.{
  op_i32_trunc_sat_f32_s, op_i32_trunc_sat_f32_u, op_i32_trunc_sat_f64_s, op_i32_trunc_sat_f64_u,
  op_i64_trunc_sat_f32_s, op_i64_trunc_sat_f32_u, op_i64_trunc_sat_f64_s, op_i64_trunc_sat_f64_u,
}
use silverfir.Validator.Context.{Context, push_val, pop_drop}
use silverfir.Validator.Numeric.{pop1_push}

unfoldable pub on_ref_null : TypeId → Context → Result Context
on_ref_null type ctx = push_val type ctx

unfoldable pub on_ref_is_null : Context → Result Context
on_ref_is_null ctx = pop1_push type_id_ref type_id_i32 ctx

unfoldable pub on_ref_func : ℕ → Context → Result Context
on_ref_func fref ctx =
    if leb (length ctx.mod'.funcs) fref then err invalid else push_val type_id_funcref ctx

unfoldable pub on_trunc_sat : ℕ → Context → Result Context
unfolding one_of
on_trunc_sat opcode ctx =
    if one_of opcode (op_i32_trunc_sat_f32_s ∷ op_i32_trunc_sat_f32_u ∷ [])
    then pop1_push type_id_f32 type_id_i32 ctx
    else if one_of opcode (op_i32_trunc_sat_f64_s ∷ op_i32_trunc_sat_f64_u ∷ [])
    then pop1_push type_id_f64 type_id_i32 ctx
    else if one_of opcode (op_i64_trunc_sat_f32_s ∷ op_i64_trunc_sat_f32_u ∷ [])
    then pop1_push type_id_f32 type_id_i64 ctx
    else if one_of opcode (op_i64_trunc_sat_f64_s ∷ op_i64_trunc_sat_f64_u ∷ [])
    then pop1_push type_id_f64 type_id_i64 ctx
    else err general

-- The three `i32` operands of the bulk instructions.
unfoldable pub pop_three : TypeId → TypeId → TypeId → Context → Result Context
pop_three a b c ctx = do ctx1 ← pop_drop a ctx; ctx2 ← pop_drop b ctx1; pop_drop c ctx2

unfoldable pub on_memory_init : ℕ → Context → Result Context
unfolding pop_three
on_memory_init data_idx ctx =
    if leb (length ctx.mod'.segments) data_idx
    then err invalid
    else if length ctx.mod'.memories == 0
    then err invalid
    else pop_three type_id_i32 type_id_i32 type_id_i32 ctx

-- Also `validator_on_memory_fill`.
unfoldable pub on_memory_copy : Context → Result Context
unfolding pop_three
on_memory_copy ctx =
    if length ctx.mod'.memories == 0
    then err invalid
    else pop_three type_id_i32 type_id_i32 type_id_i32 ctx

unfoldable pub on_data_drop : ℕ → Context → Result Context
on_data_drop data_idx ctx = if leb (length ctx.mod'.segments) data_idx then err invalid else ok ctx

unfoldable pub on_table_init : ℕ → ℕ → Context → Result Context
unfolding pop_three
on_table_init elem_idx table_idx ctx = elim (get_elem? ctx.mod'.tables table_idx) [
  | none ↦ err invalid
  | some tab ↦ elim (get_elem? ctx.mod'.elements elem_idx) [
    | none ↦ err invalid
    | some elem ↦
        if tab.valtype != elem.valtype
        then err invalid
        else pop_three type_id_i32 type_id_i32 type_id_i32 ctx
  ]
]

unfoldable pub on_elem_drop : ℕ → Context → Result Context
on_elem_drop elem_idx ctx = if leb (length ctx.mod'.elements) elem_idx then err invalid else ok ctx

unfoldable pub on_table_copy : ℕ → ℕ → Context → Result Context
unfolding pop_three
on_table_copy table_idx_dst table_idx_src ctx = elim (get_elem? ctx.mod'.tables table_idx_src) [
  | none ↦ err invalid
  | some tab_x ↦ elim (get_elem? ctx.mod'.tables table_idx_dst) [
    | none ↦ err invalid
    | some tab_y ↦
        if tab_x.valtype != tab_y.valtype
        then err invalid
        else pop_three type_id_i32 type_id_i32 type_id_i32 ctx
  ]
]

unfoldable pub on_table_grow : ℕ → Context → Result Context
on_table_grow table_idx ctx = if leb (length ctx.mod'.tables) table_idx then err invalid else do
  ctx1 ← pop_drop type_id_i32 ctx
  ctx2 ← pop_drop type_id_ref ctx1
  push_val type_id_i32 ctx2

unfoldable pub on_table_size : ℕ → Context → Result Context
on_table_size table_idx ctx =
    if leb (length ctx.mod'.tables) table_idx then err invalid else push_val type_id_i32 ctx

unfoldable pub on_table_fill : ℕ → Context → Result Context
unfolding pop_three
on_table_fill table_idx ctx =
    if leb (length ctx.mod'.tables) table_idx
    then err invalid
    else pop_three type_id_i32 type_id_ref type_id_i32 ctx

unfoldable pub on_opcode_fd : Context → Result Context
on_opcode_fd ctx = err invalid
