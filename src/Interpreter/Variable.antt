-- ===== src/Interpreter/Variable.antt =====
-- The instructions on locals, globals and single elements of tables of src/interpreter/in_place_dt.c.
use silverfir.Prelude.{leb, if◌then◌else◌, length}
use silverfir.Result.{Result, ok, err, general, ◌>>=◌}
use silverfir.Interpreter.{Instance, Machine, pop, push, u_u32, read_imm, read_at, write_at}

unfoldable pub exec_local_get : Instance → Machine → Result Machine
exec_local_get inst m = do
  let (local_idx, m1) = read_imm inst m
  v ← read_at m1.locals local_idx
  ok (push v m1)

unfoldable pub exec_local_set : Instance → Machine → Result Machine
exec_local_set inst m = do
  (v, m1) ← pop m
  let (local_idx, m2) = read_imm inst m1
  locals ← write_at m2.locals local_idx v
  ok (record m2 { locals = locals })

unfoldable pub exec_local_tee : Instance → Machine → Result Machine
exec_local_tee inst m = do
  (v, _) ← pop m
  let (local_idx, m1) = read_imm inst m
  locals ← write_at m1.locals local_idx v
  ok (record m1 { locals = locals })

unfoldable pub exec_global_get : Instance → Machine → Result Machine
exec_global_get inst m = do
  let (global_idx, m1) = read_imm inst m
  g_addr ← read_at inst.g_addrs global_idx
  v ← read_at m1.globals g_addr
  ok (push v m1)

unfoldable pub exec_global_set : Instance → Machine → Result Machine
exec_global_set inst m = do
  let (global_idx, m1) = read_imm inst m
  g_addr ← read_at inst.g_addrs global_idx
  (v, m2) ← pop m1
  globals ← write_at m2.globals g_addr v
  ok (record m2 { globals = globals })

unfoldable pub exec_table_get : Instance → Machine → Result Machine
exec_table_get inst m = do
  let (table_idx, m1) = read_imm inst m
  t_addr ← read_at inst.t_addrs table_idx
  tdata ← read_at m1.tables t_addr
  (v, m2) ← pop m1
  if leb (length tdata) (u_u32 v)
      then err general
      else do r ← read_at tdata (u_u32 v); ok (push r m2)

unfoldable pub exec_table_set : Instance → Machine → Result Machine
exec_table_set inst m = do
  let (table_idx, m1) = read_imm inst m
  t_addr ← read_at inst.t_addrs table_idx
  (r, m2) ← pop m1
  (v, m3) ← pop m2
  tdata ← read_at m3.tables t_addr
  if leb (length tdata) (u_u32 v) then err general else do
    tdata' ← write_at tdata (u_u32 v) r
    tables ← write_at m3.tables t_addr tdata'
    ok (record m3 { tables = tables })
