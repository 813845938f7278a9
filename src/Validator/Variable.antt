-- ===== src/Validator/Variable.antt =====
-- src/runtime/validator.c: parametric instructions, and locals, globals and tables.
use silverfir.Prelude.{ℕ, ◌||◌, ◌&&◌, ◌!=◌, ◌==◌, not, none, some, get_elem?, if◌then◌else◌}
use silverfir.Result.{Result, ok, err, invalid, ◌>>=◌}
use silverfir.Format.{TypeId, type_id_i32, type_id_unknown, is_num, is_vec}
use silverfir.Validator.Context.{Context, push_val, pop_val, pop_drop}

unfoldable pub on_drop : Context → Result Context
on_drop ctx = do (_, ctx') ← pop_val ctx; ok ctx'

unfoldable pub on_select : Context → Result Context
on_select ctx = do
  ctx1 ← pop_drop type_id_i32 ctx
  (t1, ctx2) ← pop_val ctx1
  (t2, ctx3) ← pop_val ctx2
  if not (is_num t1 && is_num t2 || is_vec t1 && is_vec t2)
      then err invalid
      else if t1 != t2 && t1 != type_id_unknown && t2 != type_id_unknown
      then err invalid
      else push_val (if t1 == type_id_unknown then t2 else t1) ctx3

unfoldable pub on_select_t : TypeId → Context → Result Context
on_select_t type ctx = do
  ctx1 ← pop_drop type_id_i32 ctx
  ctx2 ← pop_drop type ctx1
  ctx3 ← pop_drop type ctx2
  push_val type ctx3

unfoldable pub on_local_get : ℕ → Context → Result Context
on_local_get local_idx ctx = elim (get_elem? ctx.locals local_idx) [
  | none ↦ err invalid
  | some local_type ↦ push_val local_type ctx
]

unfoldable pub on_local_set : ℕ → Context → Result Context
on_local_set local_idx ctx = elim (get_elem? ctx.locals local_idx) [
  | none ↦ err invalid
  | some local_type ↦ pop_drop local_type ctx
]

unfoldable pub on_local_tee : ℕ → Context → Result Context
on_local_tee local_idx ctx = elim (get_elem? ctx.locals local_idx) [
  | none ↦ err invalid
  | some local_type ↦ do ctx' ← pop_drop local_type ctx; push_val local_type ctx'
]

unfoldable pub on_global_get : ℕ → Context → Result Context
on_global_get global_idx ctx = elim (get_elem? ctx.mod'.globals global_idx) [
  | none ↦ err invalid
  | some g ↦ push_val g.valtype ctx
]

unfoldable pub on_global_set : ℕ → Context → Result Context
on_global_set global_idx ctx = elim (get_elem? ctx.mod'.globals global_idx) [
  | none ↦ err invalid
  | some g ↦ pop_drop g.valtype ctx
]

unfoldable pub on_table_get : ℕ → Context → Result Context
on_table_get table_idx ctx = elim (get_elem? ctx.mod'.tables table_idx) [
  | none ↦ err invalid
  | some tab ↦ do ctx' ← pop_drop type_id_i32 ctx; push_val tab.valtype ctx'
]

unfoldable pub on_table_set : ℕ → Context → Result Context
on_table_set table_idx ctx = elim (get_elem? ctx.mod'.tables table_idx) [
  | none ↦ err invalid
  | some tab ↦ do ctx' ← pop_drop tab.valtype ctx; pop_drop type_id_i32 ctx'
]
