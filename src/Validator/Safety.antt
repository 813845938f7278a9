-- ===== src/Validator/Safety.antt =====
-- The callbacks of src/runtime/validator.c stay within the operand stack, the control stack and the
-- jump table, and a turn of `decode_function` with them does.
pub mod Operand
pub mod Numeric
pub mod Control
pub mod Branch
pub mod Table
use silverfir.Prelude.{ℕ, ◌≡◌}
use silverfir.Result.{Result, ok}
use silverfir.Result.Post.{Post, returns, throws, weaken, weaken_fault}
use silverfir.Stream.{Stream, read_u8}
use silverfir.Module.{Module}
use silverfir.Decoder.Contract.{Keeps}
use silverfir.Decoder.Loop.{decode_turn}
use silverfir.Decoder.Progress.Control.{IsBadImm}
use silverfir.Decoder.Progress.Loop.{Turned, decode_turn-Turned}
use silverfir.Validator.Context.{Context}
use silverfir.Validator.Context.Invariant.{IsWellFormed, IsOpen, Moved, push_val-Post}
use silverfir.Validator.Memory.{
  on_memory_size, on_i32_const, on_i64_const, on_f32_const, on_f64_const,
}
use silverfir.Validator.Numeric.{on_wrapop}
use silverfir.Validator.Bulk.{on_ref_null, on_ref_is_null, on_opcode_fd}
use silverfir.Validator.Callbacks.{validator_callbacks}
use silverfir.Validator.Safety.Operand.*
use silverfir.Validator.Safety.Numeric.*
use silverfir.Validator.Safety.Control.{on_block-Post, on_else-Post, on_end-Post}
use silverfir.Validator.Safety.Branch.{
  on_unreachable-Post, on_br_or_if-Post, on_return-Post, on_call-Post, on_call_indirect-Post,
}
use silverfir.Validator.Safety.Table.{IsNullTable, on_br_table-Post}

open' : {F : Type 0} {r : Result Context} → Post IsOpen F r → Post IsWellFormed F r
open' h = weaken (λ ctx o. o.valid) h

moved :
    {F : Type 0} {ctx : Context} {r : Result Context} → Post (Moved ctx) F r → Post IsWellFormed F r
moved h = weaken (λ ctx' m. m.1.valid) h

-- The contract of the table `validator_callbacks`.
pub validator_callbacks-Keeps :
    {F : Type 0} → Keeps IsOpen IsWellFormed IsNullTable F validator_callbacks
unfolding on_memory_size on_i32_const on_i64_const on_f32_const on_f64_const on_wrapop on_ref_null
    on_ref_is_null on_opcode_fd
validator_callbacks-Keeps = record {
  on_opcode = λ a b s i. returns i;
  on_unreachable = λ a b s i. open' (on_unreachable-Post s i);
  on_nop = λ a b s i. returns i.valid;
  on_block = λ a b c s i. open' (on_block-Post a b c s i);
  on_else = λ a b s i. open' (on_else-Post b s i);
  on_end = λ a b s i. on_end-Post b s i;
  on_br_or_if = λ a b c s i. open' (on_br_or_if-Post a b c s i);
  on_br_table = λ a b s i. open' (on_br_table-Post b s i);
  on_return = λ a b s i. open' (on_return-Post s i);
  on_call = λ a b s i. open' (on_call-Post b s i);
  on_call_indirect = λ a b c s i. open' (on_call_indirect-Post b c s i);
  on_drop = λ a b s i. moved (on_drop-Post s i);
  on_select = λ a b s i. moved (on_select-Post s i);
  on_select_t = λ a b c s i. moved (on_select_t-Post c s i);
  on_local_get = λ a b s i. moved (on_local_get-Post b s i);
  on_local_set = λ a b s i. moved (on_local_set-Post b s i);
  on_local_tee = λ a b s i. moved (on_local_tee-Post b s i);
  on_global_get = λ a b s i. moved (on_global_get-Post b s i);
  on_global_set = λ a b s i. moved (on_global_set-Post b s i);
  on_table_get = λ a b s i. moved (on_table_get-Post b s i);
  on_table_set = λ a b s i. moved (on_table_set-Post b s i);
  on_memory_load_store = λ a b c d s i. moved (on_memory_load_store-Post a c s i);
  on_memory_size = λ a b s i. moved (push_val-Post _ s i);
  on_memory_grow = λ a b s i. moved (on_memory_grow-Post s i);
  on_i32_const = λ a b s i. moved (push_val-Post _ s i);
  on_i64_const = λ a b s i. moved (push_val-Post _ s i);
  on_f32_const = λ a b s i. moved (push_val-Post _ s i);
  on_f64_const = λ a b s i. moved (push_val-Post _ s i);
  on_iunop = λ a b s i. moved (on_iunop-Post a s i);
  on_funop = λ a b s i. moved (on_funop-Post a s i);
  on_ibinop = λ a b s i. moved (on_ibinop-Post a s i);
  on_fbinop = λ a b s i. moved (on_fbinop-Post a s i);
  on_itestop = λ a b s i. moved (on_itestop-Post a s i);
  on_irelop = λ a b s i. moved (on_irelop-Post a s i);
  on_frelop = λ a b s i. moved (on_frelop-Post a s i);
  on_wrapop = λ a b s i. moved (pop1_push-Post _ _ s i);
  on_truncop = λ a b s i. moved (on_truncop-Post a s i);
  on_convertop = λ a b s i. moved (on_convertop-Post a s i);
  on_rankop = λ a b s i. moved (on_rankop-Post a s i);
  on_reinterpretop = λ a b s i. moved (on_reinterpretop-Post a s i);
  on_extendop = λ a b s i. moved (on_extendop-Post a s i);
  on_ref_null = λ a b c s i. moved (push_val-Post c s i);
  on_ref_is_null = λ a b s i. moved (pop1_push-Post _ _ s i);
  on_ref_func = λ a b s i. moved (on_ref_func-Post b s i);
  on_opcode_fc = λ a b s i. returns i;
  on_trunc_sat = λ a b s i. moved (on_trunc_sat-Post a s i);
  on_memory_init = λ a b s i. moved (on_memory_init-Post b s i);
  on_memory_copy = λ a b s i. moved (on_memory_copy-Post s i);
  on_memory_fill = λ a b s i. moved (on_memory_copy-Post s i);
  on_data_drop = λ a b s i. moved (on_data_drop-Post b s i);
  on_table_init = λ a b c s i. moved (on_table_init-Post b c s i);
  on_elem_drop = λ a b s i. moved (on_elem_drop-Post b s i);
  on_table_copy = λ a b c s i. moved (on_table_copy-Post b c s i);
  on_table_grow = λ a b s i. moved (on_table_grow-Post b s i);
  on_table_size = λ a b s i. moved (on_table_size-Post b s i);
  on_table_fill = λ a b s i. moved (on_table_fill-Post b s i);
  on_opcode_fd = λ a b s i. throws;
}

-- What a turn at `code` cannot take, by its opcode and what follows it.
pub record IsBadTurn (mod' : Module) (code : Stream) : Type 0 where
  pub opcode : ℕ
  pub pc : Stream
  pub read : read_u8 code ≡ ok (opcode, pc)
  pub bad : IsBadImm IsNullTable mod' opcode pc

-- From a well-formed state with a frame, a turn of `decode_function` with the validator's callbacks
-- rejects the function, or takes a byte at least and leaves a well-formed state. It accesses no
-- vector out of its range, unless the instruction is a `br_table` whose number of labels wraps
-- around to 0, or a block whose type the lookup in `s_block_types` does not have.
pub decode_turn-validator_callbacks :
    (mod' : Module) (code : Stream) (ctx : Context)
    → IsOpen ctx
    → Post
        (Turned IsWellFormed code)
        (IsBadTurn mod' code)
        (decode_turn validator_callbacks mod' code ctx)
decode_turn-validator_callbacks mod' code ctx o =
    decode_turn-Turned validator_callbacks validator_callbacks-Keeps mod' code ctx
      (λ opcode pc e b. record { opcode = opcode; pc = pc; read = e; bad = b }) o
