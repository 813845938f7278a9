-- ===== src/Validator/Memory.antt =====
-- src/runtime/validator.c: loads, stores, the memory's size, and constants.
use silverfir.Prelude.{ℕ, ◌∷◌, [], length, one_of, ltb, ◌==◌, if◌then◌else◌}
use silverfir.Result.{Result, ok, err, invalid, ◌>>=◌}
use silverfir.Format.{TypeId, type_id_i32, type_id_i64, type_id_f32, type_id_f64}
use silverfir.Opcode.{
  op_i32_load, op_i32_load8_s, op_i32_load8_u, op_i32_load16_s, op_i32_load16_u, op_i64_load,
  op_i64_load8_s, op_i64_load8_u, op_i64_load16_s, op_i64_load16_u, op_i64_load32_s,
  op_i64_load32_u, op_f32_load, op_f64_load, op_i32_store, op_i32_store8, op_i32_store16,
  op_i64_store, op_i64_store8, op_i64_store16, op_i64_store32, op_f32_store, op_f64_store,
}
use silverfir.Validator.Context.{Context, push_val, pop_drop}

-- MEM_LOAD and MEM_STORE, with the type's `sizeof`.
unfoldable pub mem_load : TypeId → ℕ → ℕ → Context → Result Context
mem_load dst_type size align ctx =
    if ltb size align
    then err invalid
    else do ctx' ← pop_drop type_id_i32 ctx; push_val dst_type ctx'

unfoldable pub mem_store : TypeId → ℕ → ℕ → Context → Result Context
mem_store src_type size align ctx =
    if ltb size align
    then err invalid
    else do ctx' ← pop_drop src_type ctx; pop_drop type_id_i32 ctx'

unfoldable pub on_memory_load_store : ℕ → ℕ → Context → Result Context
unfolding mem_load mem_store one_of
on_memory_load_store opcode align ctx =
    if length ctx.mod'.memories == 0
    then err invalid
    else if one_of opcode
        (op_i32_load ∷ op_i32_load8_s ∷ op_i32_load8_u ∷ op_i32_load16_s ∷ op_i32_load16_u ∷ [])
    then mem_load type_id_i32 4 align ctx
    else if one_of opcode (
        op_i64_load ∷ op_i64_load8_s ∷ op_i64_load8_u ∷ op_i64_load16_s ∷ op_i64_load16_u
        ∷ op_i64_load32_s ∷ op_i64_load32_u ∷ [])
    then mem_load type_id_i64 8 align ctx
    else if opcode == op_f32_load
    then mem_load type_id_f32 4 align ctx
    else if opcode == op_f64_load
    then mem_load type_id_f64 8 align ctx
    else if one_of opcode (op_i32_store ∷ op_i32_store8 ∷ op_i32_store16 ∷ [])
    then mem_store type_id_i32 4 align ctx
    else if one_of opcode (op_i64_store ∷ op_i64_store8 ∷ op_i64_store16 ∷ op_i64_store32 ∷ [])
    then mem_store type_id_i64 8 align ctx
    else if opcode == op_f32_store
    then mem_store type_id_f32 4 align ctx
    else if opcode == op_f64_store
    then mem_store type_id_f64 8 align ctx
    else ok ctx

unfoldable pub on_memory_size : Context → Result Context
on_memory_size ctx = push_val type_id_i32 ctx

unfoldable pub on_memory_grow : Context → Result Context
on_memory_grow ctx = do ctx' ← pop_drop type_id_i32 ctx; push_val type_id_i32 ctx'

unfoldable pub on_i32_const : Context → Result Context
on_i32_const ctx = push_val type_id_i32 ctx

unfoldable pub on_i64_const : Context → Result Context
on_i64_const ctx = push_val type_id_i64 ctx

unfoldable pub on_f32_const : Context → Result Context
on_f32_const ctx = push_val type_id_f32 ctx

unfoldable pub on_f64_const : Context → Result Context
on_f64_const ctx = push_val type_id_f64 ctx
