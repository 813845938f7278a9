-- ===== src/Validator/Callbacks.antt =====
-- src/runtime/validator.c: the table `validator_callbacks`, and `validate_func`. The two callbacks that
-- only write to the log return their payload.
use silverfir.Prelude.{Option, none, some, []}
use silverfir.Result.{Result, ok, err, fault}
use silverfir.Module.{Func, Module}
use silverfir.Decoder.Callbacks.{Callbacks}
use silverfir.Decoder.Loop.{decode_function}
use silverfir.Validator.Context.{Context}
use silverfir.Validator.Control.{on_decode_begin, on_block, on_else, on_end}
use silverfir.Validator.Branch.{
  on_unreachable, on_br_or_if, on_br_table, on_return, on_call, on_call_indirect,
}
use silverfir.Validator.Variable.{
  on_drop, on_select, on_select_t, on_local_get, on_local_set, on_local_tee, on_global_get,
  on_global_set, on_table_get, on_table_set,
}
use silverfir.Validator.Memory.{
  on_memory_load_store, on_memory_size, on_memory_grow, on_i32_const, on_i64_const, on_f32_const,
  on_f64_const,
}
use silverfir.Validator.Numeric.{
  on_itestop, on_iunop, on_irelop, on_ibinop, on_funop, on_frelop, on_fbinop, on_wrapop, on_truncop,
  on_convertop, on_rankop, on_reinterpretop, on_extendop,
}
use silverfir.Validator.Bulk.{
  on_ref_null, on_ref_is_null, on_ref_func, on_trunc_sat, on_memory_init, on_memory_copy,
  on_data_drop, on_table_init, on_elem_drop, on_table_copy, on_table_grow, on_table_size,
  on_table_fill, on_opcode_fd,
}
use silverfir.Validator.Link.{on_decode_end}

abbrev pub validator_callbacks : Callbacks Context
validator_callbacks = record {
  on_opcode = λ opcode imm ctx. ok ctx;
  on_decode_begin = on_decode_begin;
  on_unreachable = λ opcode imm ctx. on_unreachable ctx;
  on_nop = λ opcode imm ctx. ok ctx;
  on_block = on_block;
  on_else = λ opcode imm ctx. on_else imm ctx;
  on_end = λ opcode imm ctx. on_end imm ctx;
  on_br_or_if = on_br_or_if;
  on_br_table = λ opcode imm ctx. on_br_table imm ctx;
  on_return = λ opcode imm ctx. on_return ctx;
  on_call = λ imm func_idx ctx. on_call func_idx ctx;
  on_call_indirect = λ imm type_idx table_idx ctx. on_call_indirect type_idx table_idx ctx;
  on_drop = λ opcode imm ctx. on_drop ctx;
  on_select = λ opcode imm ctx. on_select ctx;
  on_select_t = λ opcode imm type ctx. on_select_t type ctx;
  on_local_get = λ imm local_idx ctx. on_local_get local_idx ctx;
  on_local_set = λ imm local_idx ctx. on_local_set local_idx ctx;
  on_local_tee = λ imm local_idx ctx. on_local_tee local_idx ctx;
  on_global_get = λ imm global_idx ctx. on_global_get global_idx ctx;
  on_global_set = λ imm global_idx ctx. on_global_set global_idx ctx;
  on_table_get = λ imm table_idx ctx. on_table_get table_idx ctx;
  on_table_set = λ imm table_idx ctx. on_table_set table_idx ctx;
  on_memory_load_store = λ opcode imm align offset ctx. on_memory_load_store opcode align ctx;
  on_memory_size = λ opcode imm ctx. on_memory_size ctx;
  on_memory_grow = λ opcode imm ctx. on_memory_grow ctx;
  on_i32_const = λ imm val ctx. on_i32_const ctx;
  on_i64_const = λ imm val ctx. on_i64_const ctx;
  on_f32_const = λ imm val ctx. on_f32_const ctx;
  on_f64_const = λ imm val ctx. on_f64_const ctx;
  on_iunop = λ opcode imm ctx. on_iunop opcode ctx;
  on_funop = λ opcode imm ctx. on_funop opcode ctx;
  on_ibinop = λ opcode imm ctx. on_ibinop opcode ctx;
  on_fbinop = λ opcode imm ctx. on_fbinop opcode ctx;
  on_itestop = λ opcode imm ctx. on_itestop opcode ctx;
  on_irelop = λ opcode imm ctx. on_irelop opcode ctx;
  on_frelop = λ opcode imm ctx. on_frelop opcode ctx;
  on_wrapop = λ opcode imm ctx. on_wrapop ctx;
  on_truncop = λ opcode imm ctx. on_truncop opcode ctx;
  on_convertop = λ opcode imm ctx. on_convertop opcode ctx;
  on_rankop = λ opcode imm ctx. on_rankop opcode ctx;
  on_reinterpretop = λ opcode imm ctx. on_reinterpretop opcode ctx;
  on_extendop = λ opcode imm ctx. on_extendop opcode ctx;
  on_ref_null = λ opcode imm type ctx. on_ref_null type ctx;
  on_ref_is_null = λ opcode imm ctx. on_ref_is_null ctx;
  on_ref_func = λ imm fref ctx. on_ref_func fref ctx;
  on_opcode_fc = λ opcode imm ctx. ok ctx;
  on_trunc_sat = λ opcode imm ctx. on_trunc_sat opcode ctx;
  on_memory_init = λ imm data_idx ctx. on_memory_init data_idx ctx;
  on_memory_copy = λ opcode imm ctx. on_memory_copy ctx;
  on_memory_fill = λ opcode imm ctx. on_memory_copy ctx;
  on_data_drop = λ imm data_idx ctx. on_data_drop data_idx ctx;
  on_table_init = λ imm elem_idx table_idx ctx. on_table_init elem_idx table_idx ctx;
  on_elem_drop = λ imm elem_idx ctx. on_elem_drop elem_idx ctx;
  on_table_copy =
      λ imm table_idx_dst table_idx_src ctx. on_table_copy table_idx_dst table_idx_src ctx;
  on_table_grow = λ imm table_idx ctx. on_table_grow table_idx ctx;
  on_table_size = λ imm table_idx ctx. on_table_size table_idx ctx;
  on_table_fill = λ imm table_idx ctx. on_table_fill table_idx ctx;
  on_opcode_fd = λ opcode imm ctx. on_opcode_fd ctx;
  on_decode_end = on_decode_end;
}

abbrev pub start_context : Module → Func → Context
start_context mod' f = record {
  locals = [];
  val_stack = [];
  ctrl_stack = [];
  stack_size_max = 0;
  jt = f.jt;
  mod' = mod';
  f = f;
}

-- What is left of a run: the function with its jump table and its stack size. Where validation
-- fails, the module is rejected, and what was written to the function by then is dropped.
abbrev pub report : Option (Result Context) → Option (Result Func)
report none = none
report (some (ok ctx)) = some (ok ctx.f)
report (some (err e)) = some (err e)
report (some fault) = some fault

unfoldable pub validate_func : Module → Func → Option (Result Func)
validate_func mod' f = report (decode_function validator_callbacks mod' f (start_context mod' f))
