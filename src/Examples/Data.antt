-- ===== src/Examples/Data.antt =====
-- Functions in the bytes of the format, and states of the validator of src/runtime/validator.c.
use silverfir.Prelude.{List, [], ◌∷◌, ℕ, false, none}
use silverfir.Format.{type_id_i32}
use silverfir.Module.{FuncType, JumpTable, Func, Module}
use silverfir.Parser.Binary.{module_of}
use silverfir.Validator.Context.{bt_block, CtrlFrame, Context}
use silverfir.Validator.Callbacks.{start_context}

abbrev pub empty_module : Module
empty_module = module_of []

abbrev pub void_type : FuncType
void_type = record { param_count = 0; result_count = 0; params = []; results = [] }

abbrev pub unary_type : FuncType
unary_type = record { param_count = 1; result_count = 1; params = 0x7f ∷ []; results = 0x7f ∷ [] }

abbrev pub func_of : FuncType → List ℕ → Func
func_of type code = record {
  fn_type = type;
  linkage = 0;
  local_count = 0;
  local_types = [];
  local_types_fixed = false;
  code = code;
  path = none;
  jt = [];
  stack_size_max = 0;
}

-- local.get 0; i32.const 1; i32.add; end
abbrev pub increment : Func
increment = func_of unary_type (0x20 ∷ 0x00 ∷ 0x41 ∷ 0x01 ∷ 0x6a ∷ 0x0b ∷ [])

-- A drop behind the function's last end.
abbrev pub trailing : Func
trailing = func_of void_type (0x0b ∷ 0x1a ∷ [])

-- The frame of a block on an i32, entered above no operand, with one branch to its end.
abbrev pub block_frame : CtrlFrame
block_frame = record {
  type = bt_block;
  ftype = void_type;
  start_types = [];
  end_types = type_id_i32 ∷ [];
  height = 0;
  unreachable = false;
  pending_jt_slots = 0 ∷ [];
  pc = 0;
}

abbrev pub block_slot : JumpTable
block_slot = record { pc = 3; target_offset = 0; stack_offset = 0; arity = 1; next_idx = 0xffff }

-- Within the block, with one operand, and one record of the jump table.
abbrev pub block_context : Context
block_context = record (start_context empty_module increment) {
  val_stack = type_id_i32 ∷ [];
  ctrl_stack = block_frame ∷ [];
  jt = block_slot ∷ [];
}
