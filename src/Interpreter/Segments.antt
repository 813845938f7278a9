-- ===== src/Interpreter/Segments.antt =====
-- `table_init` and `elem_drop` of src/interpreter/in_place_dt.c.
pub mod Functions
use silverfir.Prelude.{
  ℕ, zero, suc, ◌+◌, ◌-◌, ◌^◌, Bool, true, ltb, ◌||◌, ◌==◌, not, if◌then◌else◌, List, [], ◌∷◌,
  length,
}
use silverfir.Result.{Result, ok, err, fault, general, invalid, ◌>>=◌}
use silverfir.Format.{is_ref}
use silverfir.Stream.{stream_from}
use silverfir.Module.{Element}
use silverfir.Interpreter.{Instance, Machine, pop, u_u32, read_imm, read_at, write_at}
use silverfir.Interpreter.Bulk.{pop_three}
use silverfir.Interpreter.Constant.{ConstInst, nullref, interp_reduce_const_expr}

abbrev pub nullfidx : ℕ
nullfidx = 2 ^ 32 - 1

-- The loop over function indices.
unfoldable pub init_funcs : List ℕ → List ℕ → ℕ → ℕ → ℕ → List ℕ → Result (List ℕ)
init_funcs f_addrs v_funcidx zero src dst tdata = ok tdata
init_funcs f_addrs v_funcidx (suc size) src dst tdata = do
  f_idx ← read_at v_funcidx src
  fref ← (if f_idx == nullfidx then ok nullref else read_at f_addrs f_idx)
  tdata' ← write_at tdata dst fref
  init_funcs f_addrs v_funcidx size (suc src) (suc dst) tdata'

-- The loop over constant expressions.
unfoldable pub init_exprs : ConstInst → List (List ℕ) → ℕ → ℕ → ℕ → List ℕ → Result (List ℕ)
init_exprs inst v_expr zero src dst tdata = ok tdata
init_exprs inst v_expr (suc size) src dst tdata = do
  expr ← read_at v_expr src
  value ← interp_reduce_const_expr inst (stream_from expr) true
  if not (is_ref value.type) then err invalid else do
    tdata' ← write_at tdata dst value.val
    init_exprs inst v_expr size (suc src) (suc dst) tdata'

-- What a constant expression of a passive segment can read: such an expression has no `global.get`.
abbrev pub const_inst : Instance → ConstInst
const_inst inst = record { globals = 0; g_addrs = []; f_addrs = inst.f_addrs }

unfoldable pub init_elements : Instance → Element → ℕ → ℕ → ℕ → List ℕ → Result (List ℕ)
init_elements inst elem size src dst tdata =
    if not (length elem.v_funcidx == 0)
    then init_funcs inst.f_addrs elem.v_funcidx size src dst tdata
    else if not (length elem.v_expr == 0)
    then init_exprs (const_inst inst) elem.v_expr size src dst tdata
    else ok tdata

unfoldable pub exec_table_init : Instance → Machine → Result Machine
exec_table_init inst m = do
  let (elem_idx, m0) = read_imm inst m
  let (table_idx, m1) = read_imm inst m0
  t_addr ← read_at inst.t_addrs table_idx
  elem ← read_at inst.mod'.elements elem_idx
  (size_v, src_v, dst_v, m2) ← pop_three m1
  let size = u_u32 size_v
  let src = u_u32 src_v
  let dst = u_u32 dst_v
  tdata ← read_at m2.tables t_addr
  if ltb elem.data_len (src + size) || ltb (length tdata) (dst + size)
      then err general
      else if size == 0
      then ok m2
      else do
        dropped ← read_at m2.dropped_elements elem_idx
        if dropped then err general else do
          tdata' ← init_elements inst elem size src dst tdata
          tables ← write_at m2.tables t_addr tdata'
          ok (record m2 { tables = tables })

unfoldable pub exec_elem_drop : Instance → Machine → Result Machine
exec_elem_drop inst m = do
  let (elem_idx, m1) = read_imm inst m
  dropped_elements ← write_at m1.dropped_elements elem_idx true
  ok (record m1 { dropped_elements = dropped_elements })

unfoldable pub exec_ref_func : Instance → Machine → Result Machine
exec_ref_func inst m = do
  let (f_idx, m1) = read_imm inst m
  fref ← read_at inst.f_addrs f_idx
  ok (record m1 { stack = fref ∷ m1.stack })

unfoldable pub exec_ref_null : Machine → Machine
exec_ref_null m = record m { pc = m.pc + 1; stack = nullref ∷ m.stack }

-- The comparison is written to the low half of the reference.
unfoldable pub exec_ref_is_null : Machine → Result Machine
exec_ref_is_null m = do
  (r, m1) ← pop m
  ok (record m1 { stack = (r - u_u32 r + (if r == nullref then 1 else 0)) ∷ m1.stack })
