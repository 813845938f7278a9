-- ===== src/Interpreter/Constant.antt =====
-- src/interpreter/const_expr_eval.c: the reduction of a constant expression to a value. Unlike the
-- interpreter it reads through the checked stream.
pub mod Instructions
pub mod Runs
pub mod Total
pub mod Faults
use silverfir.Prelude.{
  ℕ, zero, suc, ◌-◌, ◌^◌, Bool, leb, ◌&&◌, ◌==◌, ◌!=◌, if◌then◌else◌, List, [], ◌∷◌, length,
}
use silverfir.Result.{Result, ok, err, fault, malformed, invalid, ◌>>=◌}
use silverfir.Format.{
  TypeId, is_ref, type_id_i32, type_id_i64, type_id_f32, type_id_f64, type_id_funcref,
}
use silverfir.Stream.{Stream, remaining, read_u8, read_vi7, read_f32, read_f64}
use silverfir.Stream.Leb.{read_vu32, read_vi32, read_vi64}
use silverfir.Opcode.{
  op_i32_const, op_i64_const, op_f32_const, op_f64_const, op_ref_null, op_ref_func, op_global_get,
  op_end,
}
use silverfir.Interpreter.{read_at}

-- `typed_value`
pub record TypedValue : Type 0 where
  pub type : TypeId
  pub val : ℕ

-- What a reduction reads of a module's instance: the size of `globals`, the type and the value behind
-- each of `g_addrs`, and `f_addrs` as the references to them.
pub record ConstInst : Type 0 where
  pub globals : ℕ
  pub g_addrs : List TypedValue
  pub f_addrs : List ℕ

abbrev pub nullref : ℕ
nullref = 2 ^ 64 - 1

abbrev pub typed : TypeId → ℕ × Stream → Result (TypedValue × Stream)
typed t (v, st) = ok (record { type = t; val = v }, st)

unfoldable pub reduce_ref_null : Stream → Result (TypedValue × Stream)
reduce_ref_null st = do
  (type, st') ← read_vi7 st
  if is_ref type then typed type (nullref, st') else err invalid

unfoldable pub reduce_ref_func : ConstInst → Stream → Result (TypedValue × Stream)
reduce_ref_func inst st = do
  (f_idx, st') ← read_vu32 st
  fref ← read_at inst.f_addrs f_idx
  typed type_id_funcref (fref, st')

unfoldable pub reduce_global_get : ConstInst → Stream → Result (TypedValue × Stream)
reduce_global_get inst st = do
  (idx, st') ← read_vu32 st
  if leb inst.globals idx then err invalid else do value ← read_at inst.g_addrs idx; ok (value, st')

-- The switch, but for `end`.
unfoldable pub reduce_op : ConstInst → ℕ → Stream → Result (TypedValue × Stream)
reduce_op inst opcode st =
    if opcode == op_i32_const
    then read_vi32 st >>= typed type_id_i32
    else if opcode == op_i64_const
    then read_vi64 st >>= typed type_id_i64
    else if opcode == op_f32_const
    then read_f32 st >>= typed type_id_f32
    else if opcode == op_f64_const
    then read_f64 st >>= typed type_id_f64
    else if opcode == op_ref_null
    then reduce_ref_null st
    else if opcode == op_ref_func
    then reduce_ref_func inst st
    else if opcode == op_global_get
    then reduce_global_get inst st
    else err invalid

-- The loop, on fuel; the back of the stack is the head.
unfoldable pub reduce_loop :
    ℕ → ConstInst → Bool → List TypedValue → Stream → Result (List TypedValue)
reduce_loop zero inst passive_elem value_stack st = fault
reduce_loop (suc fuel) inst passive_elem value_stack st =
    if remaining st == 0 then ok value_stack else do
      (opcode, st1) ← read_u8 st
      if passive_elem && (opcode != op_ref_null && (opcode != op_ref_func && opcode != op_end))
          then err malformed
          else if opcode == op_end
          then ok value_stack
          else do
            (value, st2) ← reduce_op inst opcode st1
            reduce_loop fuel inst passive_elem (value ∷ value_stack) st2

-- The single value that is left.
unfoldable pub single : List TypedValue → Result TypedValue
single [] = err invalid
single (value ∷ []) = ok value
single (value ∷ other ∷ rest) = err invalid

unfoldable pub interp_reduce_const_expr : ConstInst → Stream → Bool → Result TypedValue
interp_reduce_const_expr inst code passive_elem =
    reduce_loop (suc (remaining code)) inst passive_elem [] code >>= single
