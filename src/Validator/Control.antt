-- ===== src/Validator/Control.antt =====
-- src/runtime/validator.c: the start of a function, and the structured instructions.
use silverfir.Prelude.{
  ℕ, ◌+◌, Bool, true, false, not, List, [], ◌∷◌, ◌++◌, length, modify, ◌==◌, if◌then◌else◌, u32,
  u16, sub32,
}
use silverfir.Result.{Result, ok, err, invalid, ◌>>=◌}
use silverfir.Format.{type_id_i32}
use silverfir.Stream.{Stream}
use silverfir.Module.{FuncType, JumpTable, parse_types}
use silverfir.Opcode.{op_if, op_block, op_loop}
use silverfir.Validator.Context.{
  BlockType, bt_func, bt_block, bt_loop, bt_if, bt_else, CtrlFrame, Context, push_vals, back_frame,
  pop_drop, pop_vals, push_ctrl, pop_ctrl, label_types, push_slot, stack_offset_of, new_slot,
  set_target,
}

unfoldable pub on_decode_begin : Context → Result Context
on_decode_begin ctx = do
  func_params ← parse_types ctx.f.fn_type.param_count ctx.f.fn_type.params
  ctx' ←
      push_ctrl bt_func ctx.f.fn_type
        (record ctx { locals = ctx.locals ++ (func_params ++ ctx.f.local_types) })
  ok (record ctx' { val_stack = [] })

-- What `on_block` does behind `push_ctrl`: a loop is entered behind its own opcode, and an `if`
-- takes a slot of the jump table.
mark_loop : ℕ → CtrlFrame → CtrlFrame
mark_loop pc frame = record frame { pc = u32 (pc + 1) }

unfoldable pub enter_block : ℕ → ℕ → Context → Context
unfolding mark_loop
enter_block opcode pc_offset ctx =
    if opcode == op_loop
    then record ctx { ctrl_stack = modify ctx.ctrl_stack 0 (mark_loop pc_offset) }
    else if opcode == op_if
    then push_slot 0 (new_slot pc_offset 0 0) ctx
    else ctx

abbrev pub blocktype_of : ℕ → BlockType
blocktype_of opcode =
    if opcode == op_block then bt_block else if opcode == op_loop then bt_loop else bt_if

unfoldable pub on_block : ℕ → Stream → FuncType → Context → Result Context
unfolding enter_block
on_block opcode imm type ctx = do
  ctx1 ← if opcode == op_if then pop_drop type_id_i32 ctx else ok ctx
  param_types ← parse_types type.param_count type.params
  ctx2 ← pop_vals param_types ctx1
  ctx3 ← push_ctrl (blocktype_of opcode) type ctx2
  ok (enter_block opcode (u32 imm.p) ctx3)

-- The loop of `on_else` over the slots of the `if` frame: the first one jumps to the `else`, the
-- others move to the frame of the `else`.
move_slots : List ℕ → CtrlFrame → CtrlFrame
move_slots slots frame = record frame { pending_jt_slots = frame.pending_jt_slots ++ slots }

unfoldable pub move_pending : ℕ → List ℕ → Context → Result Context
unfolding move_slots
move_pending pc_offset [] ctx = ok ctx
move_pending pc_offset (slot_idx ∷ slots) ctx = do
  ctx' ← set_target (λ slot. sub32 pc_offset slot.pc) slot_idx ctx
  ok (record ctx' { ctrl_stack = modify ctx'.ctrl_stack 0 (move_slots slots) })

unfoldable pub is_if : BlockType → Bool
is_if bt_if = true
is_if _ = false

unfoldable pub on_else : Stream → Context → Result Context
unfolding is_if
on_else imm ctx = do
  current ← back_frame ctx
  if not (is_if current.type) then err invalid else do
    (cf, ctx1) ← pop_ctrl ctx
    ctx2 ← push_ctrl bt_else cf.ftype ctx1
    ctx3 ← move_pending (u32 imm.p) cf.pending_jt_slots ctx2
    else_frame ← back_frame ctx3
    let arity = u16 (length (label_types else_frame))
    ok (push_slot 0 (new_slot imm.p (stack_offset_of ctx3 arity else_frame) arity) ctx3)

-- Where a branch to the frame `cf` that ends here continues, relative to the branch.
abbrev pub target_of : CtrlFrame → ℕ → JumpTable → ℕ
target_of cf pc_offset slot = elim cf.type [
  | bt_loop ↦ sub32 cf.pc slot.pc
  | bt_func ↦ sub32 (sub32 pc_offset slot.pc) 1
  | _ ↦ sub32 pc_offset slot.pc
]

unfoldable pub resolve_slots : (JumpTable → ℕ) → List ℕ → Context → Result Context
resolve_slots target [] ctx = ok ctx
resolve_slots target (slot_idx ∷ slots) ctx = do
  ctx' ← set_target target slot_idx ctx
  resolve_slots target slots ctx'

unfoldable pub on_end : Stream → Context → Result Context
on_end imm ctx = do
  (cf, ctx1) ← pop_ctrl ctx
  ctx2 ← resolve_slots (target_of cf (u32 imm.p)) cf.pending_jt_slots ctx1
  push_vals cf.end_types ctx2
