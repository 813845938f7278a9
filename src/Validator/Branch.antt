-- ===== src/Validator/Branch.antt =====
-- src/runtime/validator.c: branches, returns and calls.
use silverfir.Prelude.{
  ℕ, zero, suc, ◌+◌, [], ◌∷◌, reverse, Option, none, some, length, get_elem?, ltb, leb, ◌==◌, ◌!=◌,
  if◌then◌else◌, u32, u16,
}
use silverfir.Result.{Result, ok, err, fault, invalid, ◌>>=◌}
use silverfir.Format.{type_id_i32}
use silverfir.Stream.{Stream}
use silverfir.Stream.Leb.{read_vu32}
use silverfir.Module.{parse_types}
use silverfir.Opcode.{op_br, op_br_if}
use silverfir.Validator.Context.{
  CtrlFrame, Context, push_vals, pop_drop, pop_vals, pop_vals_to_vec, label_types, set_unreachable,
  frame_at, push_slot, stack_offset_of, new_slot,
}

unfoldable pub on_unreachable : Context → Result Context
on_unreachable ctx = set_unreachable ctx

-- Record the branch from `pc` to the label `l` in the jump table.
unfoldable pub record_branch : ℕ → ℕ → ℕ → CtrlFrame → Context → Context
record_branch pc l arity target ctx =
    push_slot l (new_slot pc (stack_offset_of ctx arity target) arity) ctx

unfoldable pub on_br_or_if : ℕ → Stream → ℕ → Context → Result Context
unfolding record_branch
on_br_or_if opcode imm lth ctx = if leb (length ctx.ctrl_stack) lth then err invalid else do
  ctx1 ← if opcode == op_br_if then pop_drop type_id_i32 ctx else ok ctx
  target ← frame_at lth ctx1
  let arity = u16 (length (label_types target))
  ctx2 ← pop_vals (label_types target) (record_branch imm.p lth arity target ctx1)
  if opcode == op_br then set_unreachable ctx2 else push_vals (label_types target) ctx2

-- The first pass of `on_br_table`: every label is in range. It returns the position behind the
-- table and the last label, which the source keeps as a pointer to its frame.
unfoldable pub check_labels : ℕ → ℕ → ℕ → Stream → Option ℕ → Context → Result (Stream × Option ℕ)
check_labels zero i table_len pc_copy m ctx = ok (pc_copy, m)
check_labels (suc rounds) i table_len pc_copy m ctx = do
  (l, pc') ← read_vu32 pc_copy
  if leb (length ctx.ctrl_stack) l
      then err invalid
      else check_labels rounds (i + 1) table_len pc' (if i == table_len then some l else m) ctx

-- One round of the second pass.
unfoldable pub add_target : ℕ → ℕ → ℕ → Context → Result Context
unfolding record_branch
add_target pc arity l ctx = do
  target ← frame_at l ctx
  if arity != length (label_types target) then err invalid else do
    (popped, ctx1) ← pop_vals_to_vec (label_types target) (record_branch pc l arity target ctx)
    push_vals (reverse popped) ctx1

unfoldable pub add_targets : ℕ → Stream → ℕ → ℕ → Context → Result Context
add_targets zero imm pc arity ctx = ok ctx
add_targets (suc rounds) imm pc arity ctx = do
  (l, imm') ← read_vu32 imm
  ctx1 ← add_target pc arity l ctx
  add_targets rounds imm' pc arity ctx1

-- The frame of the last label; the pointer is null where the table has no label.
unfoldable pub last_frame : Option ℕ → Context → Result CtrlFrame
last_frame none ctx = fault
last_frame (some l) ctx = frame_at l ctx

unfoldable pub last_arity : Option ℕ → Context → Result ℕ
last_arity none ctx = ok 0
last_arity (some l) ctx = do frame ← frame_at l ctx; ok (length (label_types frame))

unfoldable pub on_br_table : Stream → Context → Result Context
unfolding last_frame last_arity
on_br_table imm ctx = do
  ctx1 ← pop_drop type_id_i32 ctx
  (table_len, imm1) ← read_vu32 imm
  (pc_copy, m) ← check_labels (u32 (table_len + 1)) 0 table_len imm1 none ctx1
  arity ← last_arity m ctx1
  ctx2 ← add_targets (u32 (table_len + 1)) imm1 pc_copy.p arity ctx1
  m_frame ← last_frame m ctx2
  ctx3 ← pop_vals (label_types m_frame) ctx2
  set_unreachable ctx3

-- `vec_at(&ctx->ctrl_stack, 0)`
unfoldable pub outer_frame : Context → Result CtrlFrame
outer_frame ctx = elim ctx.ctrl_stack [ [] ↦ fault | _ ∷ below ↦ frame_at (length below) ctx ]

unfoldable pub on_return : Context → Result Context
unfolding outer_frame
on_return ctx = do
  target ← outer_frame ctx
  ctx1 ← pop_vals (label_types target) ctx
  set_unreachable ctx1

-- The callee's locals lie above the caller's operands.
unfoldable pub reserve_locals : ℕ → Context → Context
reserve_locals local_count ctx =
    let required_size = u32 (length ctx.val_stack + local_count) in
    record ctx {
      stack_size_max =
          if ltb ctx.stack_size_max required_size then required_size else ctx.stack_size_max;
    }

unfoldable pub on_call : ℕ → Context → Result Context
unfolding reserve_locals
on_call func_idx ctx = elim (get_elem? ctx.mod'.funcs func_idx) [
  | none ↦ err invalid
  | some fn ↦ do
    param_types ← parse_types fn.fn_type.param_count fn.fn_type.params
    ctx1 ← pop_vals param_types ctx
    result_types ← parse_types fn.fn_type.result_count fn.fn_type.results
    push_vals result_types (reserve_locals fn.local_count ctx1)
]

unfoldable pub on_call_indirect : ℕ → ℕ → Context → Result Context
on_call_indirect type_idx table_idx ctx = do
  ctx1 ← pop_drop type_id_i32 ctx
  if leb (length ctx.mod'.tables) table_idx
      then err invalid
      else elim (get_elem? ctx.mod'.func_types type_idx) [
        | none ↦ err invalid
        | some ft ↦ do
          param_types ← parse_types ft.param_count ft.params
          ctx2 ← pop_vals param_types ctx1
          result_types ← parse_types ft.result_count ft.results
          push_vals result_types ctx2
      ]
