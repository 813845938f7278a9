-- ===== src/Interpreter/Control.antt =====
-- The control instructions of src/interpreter/in_place_dt.c. A branch follows the record of the jump
-- table at `next_jt_idx`.
use silverfir.Prelude.{
  ℕ, ◌+◌, ◌-◌, ◌^◌, ltb, ◌==◌, ◌!=◌, if◌then◌else◌, u16, u32, List, ◌++◌, length, take, drop, none,
  some, get_elem?,
}
use silverfir.Result.{Result, ok, fault, ◌>>=◌}
use silverfir.Interpreter.{Instance, Machine, pop, push, u_u32, read_imm, skip}

-- `pc += tbl->target_offset`, the offset an `i32`.
unfoldable pub jump : ℕ → ℕ → Result ℕ
jump pc offset =
    if ltb offset (2 ^ 31)
    then ok (pc + offset)
    else if ltb pc (2 ^ 32 - offset)
    then fault
    else ok (pc - (2 ^ 32 - offset))

unfoldable pub exec_block : Machine → Machine
exec_block m = skip 1 m

unfoldable pub exec_loop : Machine → Machine
exec_loop m = skip 1 m

-- Follow the record, and leave the stack alone.
unfoldable pub exec_else : Instance → Machine → Result Machine
exec_else inst m = elim (get_elem? inst.jt m.next_jt_idx) [
  | none ↦ fault
  | some tbl ↦ do
    pc ← jump m.pc tbl.target_offset
    ok (record m { pc = pc; next_jt_idx = tbl.next_idx })
]

unfoldable pub exec_if : Instance → Machine → Result Machine
exec_if inst m = do
  (c, m1) ← pop m
  if u_u32 c != 0
      then ok (record m1 { pc = m1.pc + 1; next_jt_idx = u16 (m1.next_jt_idx + 1) })
      else exec_else inst m1

-- The operands to carry are moved down over those to drop.
unfoldable pub move_down : ℕ → ℕ → List ℕ → Result (List ℕ)
move_down arity stack_offset stack =
    if ltb (length stack) (stack_offset + arity)
    then fault
    else ok (take arity stack ++ drop (stack_offset + arity) stack)

-- `handle_br`
unfoldable pub exec_br : Instance → Machine → Result Machine
exec_br inst m = elim (get_elem? inst.jt m.next_jt_idx) [
  | none ↦ fault
  | some tbl ↦ do
    pc ← jump m.pc tbl.target_offset
    stack ←
        (if tbl.stack_offset == 0 then ok m.stack else move_down tbl.arity tbl.stack_offset m.stack)
    ok (record m { pc = pc; next_jt_idx = tbl.next_idx; stack = stack })
]

unfoldable pub exec_br_if : Instance → Machine → Result Machine
exec_br_if inst m = do
  (c, m1) ← pop m
  if u_u32 c != 0
      then exec_br inst m1
      else ok (record m1 { pc = m1.pc + 1; next_jt_idx = u16 (m1.next_jt_idx + 1) })

-- The record of the label stands as far behind the first as the index says, the last label's for a
-- larger index.
unfoldable pub exec_br_table : Instance → Machine → Result Machine
exec_br_table inst m = do
  (v, m1) ← pop m
  let (table_len, m2) = read_imm inst m1
  let i = if ltb table_len (u_u32 v) then table_len else u_u32 v
  exec_br inst
      (record m2 { pc = m2.pc + u32 (table_len + 1); next_jt_idx = u16 (m2.next_jt_idx + u16 i) })

unfoldable pub exec_drop : Machine → Result Machine
exec_drop m = do (_, m1) ← pop m; ok m1

unfoldable pub exec_select : Machine → Result Machine
exec_select m = do
  (c, m1) ← pop m
  (false_val, m2) ← pop m1
  (true_val, m3) ← pop m2
  ok (push (if u_u32 c != 0 then true_val else false_val) m3)

unfoldable pub exec_select_t : Machine → Result Machine
exec_select_t m = exec_select (skip 2 m)
