-- ===== src/Validator/Context.antt =====
-- src/runtime/validator.h and the helpers of src/runtime/validator.c: the operand stack and the stack of
-- control frames. A vector that serves as a stack is a list with its back first; a vector that is
-- indexed is a list in order. `jt` is the field `f->jt`.
pub mod Invariant
pub mod Frames
pub mod Polymorphic
pub mod RoundTrip
pub mod Leftovers
pub mod Exact
use silverfir.Prelude.{
  ℕ, suc, ◌-◌, Bool, true, false, List, [], ◌∷◌, ◌++◌, reverse, none, some, length, drop, get_elem?,
  modify, ltb, ◌==◌, ◌!=◌, ◌&&◌, not, if◌then◌else◌, u32, u16, sub_wrap,
}
use silverfir.Result.{Result, ok, err, fault, invalid, ◌>>=◌}
use silverfir.Format.{TypeId, type_id_ref, type_id_unknown, is_ref}
use silverfir.Module.{FuncType, JumpTable, jump_table_idx_invalid, Func, Module, parse_types}

pub data BlockType : Type 0 where
  bt_func bt_block bt_loop bt_if bt_else : BlockType

pub record CtrlFrame : Type 0 where
  pub type : BlockType
  pub ftype : FuncType
  pub start_types : List TypeId
  pub end_types : List TypeId
  pub height : ℕ
  pub unreachable : Bool
  pub pending_jt_slots : List ℕ
  pub pc : ℕ

pub record Context : Type 0 where
  pub locals : List TypeId
  pub val_stack : List TypeId
  pub ctrl_stack : List CtrlFrame
  pub stack_size_max : ℕ
  pub jt : List JumpTable
  pub mod' : Module
  pub f : Func

unfoldable pub push_val : TypeId → Context → Result Context
push_val type ctx =
    let size = length (type ∷ ctx.val_stack) in
    ok (record ctx {
      val_stack = type ∷ ctx.val_stack;
      stack_size_max = if ltb ctx.stack_size_max size then u32 size else ctx.stack_size_max;
    })

unfoldable pub push_vals : List TypeId → Context → Result Context
push_vals [] ctx = ok ctx
push_vals (v ∷ vals) ctx = do ctx' ← push_val v ctx; push_vals vals ctx'

-- `vec_back(&ctx->ctrl_stack)` reads in front of the array where the stack is empty.
unfoldable pub back_frame : Context → Result CtrlFrame
back_frame ctx = elim ctx.ctrl_stack [ [] ↦ fault | frame ∷ _ ↦ ok frame ]

pop_from : CtrlFrame → List TypeId → Context → Result (TypeId × Context)
pop_from frame [] ctx =
    if frame.unreachable && frame.height == 0
    then ok (type_id_unknown, ctx)
    else if frame.height == 0
    then err invalid
    else fault
pop_from frame (real_type ∷ rest) ctx =
    if frame.unreachable && frame.height == suc (length rest)
    then ok (type_id_unknown, ctx)
    else if frame.height == suc (length rest)
    then err invalid
    else ok (real_type, record ctx { val_stack = rest })

unfoldable pub pop_val : Context → Result (TypeId × Context)
unfolding pop_from
pop_val ctx = do frame ← back_frame ctx; pop_from frame ctx.val_stack ctx

unfoldable pub pop_val_expect : TypeId → Context → Result (TypeId × Context)
pop_val_expect expected ctx = do
  (actual, ctx') ← pop_val ctx
  if actual != expected
        && actual != type_id_unknown
        && expected != type_id_unknown
        && not (expected == type_id_ref && is_ref actual)
      then err invalid
      else ok (actual, ctx')

-- `unwrap_drop(type_id, pop_val_expect(type, ctx))`
unfoldable pub pop_drop : TypeId → Context → Result Context
pop_drop type ctx = do (_, ctx') ← pop_val_expect type ctx; ok ctx'

-- The loop of `pop_vals_to_vec`, over the expected types from the last to the first.
unfoldable pub pop_each : List TypeId → Context → Result (List TypeId × Context)
pop_each [] ctx = ok ([], ctx)
pop_each (v ∷ vals) ctx = do
  (t, ctx') ← pop_val_expect v ctx
  (popped, ctx'') ← pop_each vals ctx'
  ok (t ∷ popped, ctx'')

unfoldable pub pop_vals_to_vec : List TypeId → Context → Result (List TypeId × Context)
pop_vals_to_vec vals ctx = pop_each (reverse vals) ctx

unfoldable pub pop_vals : List TypeId → Context → Result Context
pop_vals vals ctx = do (_, ctx') ← pop_vals_to_vec vals ctx; ok ctx'

unfoldable pub push_ctrl : BlockType → FuncType → Context → Result Context
push_ctrl bt ftype ctx = do
  params ← parse_types ftype.param_count ftype.params
  results ← parse_types ftype.result_count ftype.results
  push_vals params (record ctx {
    ctrl_stack =
        record {
          type = bt;
          ftype = ftype;
          start_types = params;
          end_types = results;
          height = length ctx.val_stack;
          unreachable = false;
          pending_jt_slots = [];
          pc = 0;
        }
        ∷ ctx.ctrl_stack;
  })

unfoldable pub pop_ctrl : Context → Result (CtrlFrame × Context)
pop_ctrl ctx = elim ctx.ctrl_stack [
  | [] ↦ err invalid
  | top_frame ∷ below ↦ do
    ctx' ← pop_vals top_frame.end_types ctx
    ok (top_frame, record ctx' { ctrl_stack = below })
]

unfoldable pub label_types : CtrlFrame → List TypeId
label_types frame = elim frame.type [ bt_loop ↦ frame.start_types | _ ↦ frame.end_types ]

mark_unreachable : CtrlFrame → CtrlFrame
mark_unreachable frame = record frame { unreachable = true }

-- `unreachable`: cut the operand stack to the height of the frame, and mark the frame.
unfoldable pub set_unreachable : Context → Result Context
unfolding mark_unreachable
set_unreachable ctx = do
  frame ← back_frame ctx
  if ltb (length ctx.val_stack) frame.height
      then err invalid
      else ok (record ctx {
        val_stack = drop (length ctx.val_stack - frame.height) ctx.val_stack;
        ctrl_stack = modify ctx.ctrl_stack 0 mark_unreachable;
      })

-- The frame that label `l` names, `vec_at(&ctx->ctrl_stack, size - l - 1)`.
unfoldable pub frame_at : ℕ → Context → Result CtrlFrame
frame_at l ctx = elim (get_elem? ctx.ctrl_stack l) [ none ↦ fault | some frame ↦ ok frame ]

add_slot : ℕ → CtrlFrame → CtrlFrame
add_slot slot frame = record frame { pending_jt_slots = frame.pending_jt_slots ++ (slot ∷ []) }

-- Append a record to the jump table, and its index to the pending slots of the frame at label `l`.
unfoldable pub push_slot : ℕ → JumpTable → Context → Context
unfolding add_slot
push_slot l slot ctx = record ctx {
  jt = ctx.jt ++ (slot ∷ []);
  ctrl_stack = modify ctx.ctrl_stack l (add_slot (u32 (length ctx.jt)));
}

-- `(u32)(vec_size(val_stack) - arity - frame->height)`, on 64 bits before the cast.
unfoldable pub stack_offset_of : Context → ℕ → CtrlFrame → ℕ
stack_offset_of ctx arity frame =
    u32 (sub_wrap 64 (sub_wrap 64 (length ctx.val_stack) arity) frame.height)

abbrev pub new_slot : ℕ → ℕ → ℕ → JumpTable
new_slot pc stack_offset arity = record {
  pc = u32 pc;
  target_offset = 0;
  stack_offset = stack_offset;
  arity = u16 arity;
  next_idx = jump_table_idx_invalid;
}

retarget : ℕ → JumpTable → JumpTable
retarget offset slot = record slot { target_offset = offset }

-- `vec_at_jump_table(jt, slot_idx)->target_offset = offset(record)`
unfoldable pub set_target : (JumpTable → ℕ) → ℕ → Context → Result Context
unfolding retarget
set_target offset slot_idx ctx = elim (get_elem? ctx.jt slot_idx) [
  | none ↦ fault
  | some slot ↦ ok (record ctx { jt = modify ctx.jt slot_idx (retarget (offset slot)) })
]
