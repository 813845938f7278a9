-- ===== src/Examples/Validation.antt =====
-- The validator of src/runtime/validator.c on small functions, and its theorems on states.
use silverfir.Prelude.{◌≡◌, ◌≢◌, refl, arith, true, false, [], ◌∷◌, All, none, some, one_of}
use silverfir.Result.{ok, fault}
use silverfir.Result.Post.{Post}
use silverfir.Format.{type_id_i32, type_id_i64, is_value_type, is_num, is_vec, is_ref}
use silverfir.Stream.{Stream, stream_from, remaining, byte, read_u8, read_vi7}
use silverfir.Stream.Leb.{read_vu32, read_vi32, unsigned_loop, signed_loop}
use silverfir.Module.{parse_types, parse_types_loop}
use silverfir.Decoder.Immediate.{no_imm, u32_imm}
use silverfir.Decoder.Control.{decode_op, decode_branch, decode_parametric}
use silverfir.Decoder.Operand.{
  decode_variable, decode_memory, decode_const, decode_reference, const_imm,
}
use silverfir.Decoder.Numeric.{decode_numeric}
use silverfir.Decoder.Loop.{decode_turn, decode_loop, decode_function}
use silverfir.Decoder.Progress.Loop.{Turned, decode_function-ne-none}
use silverfir.Validator.Context.{
  bt_func, CtrlFrame, Context, back_frame, push_val, push_vals, pop_val, pop_val_expect, pop_drop,
  pop_each, pop_vals_to_vec, pop_vals, push_ctrl, pop_ctrl, set_unreachable,
}
use silverfir.Validator.Context.Invariant.{IsWellFormed, IsOpen}
use silverfir.Validator.Context.RoundTrip.{pop_vals-push_vals}
use silverfir.Validator.Context.Polymorphic.{pop_vals-set_unreachable}
use silverfir.Validator.Control.{on_decode_begin, resolve_slots, on_end}
use silverfir.Validator.Branch.{on_br_table}
use silverfir.Validator.Variable.{on_drop, on_local_get}
use silverfir.Validator.Memory.{on_i32_const}
use silverfir.Validator.Numeric.{on_ibinop, pop2_push}
use silverfir.Validator.Link.{link_from, on_decode_end}
use silverfir.Validator.Callbacks.{validator_callbacks, start_context, validate_func}
use silverfir.Validator.Safety.{IsBadTurn, decode_turn-validator_callbacks}
use silverfir.Validator.Safety.Table.{IsNullTable, on_br_table-Post}
use silverfir.Validator.Run.{Reaches, IsLost, start, Reaches-IsWellFormed, validate_func-fault}
use silverfir.Validator.Targets.{Landed, on_end-landing}
use silverfir.Validator.Signature.{signature, apply_signature, decode_op-signature}
use silverfir.Examples.Blocks.{block_ended, on_end-ok}
use silverfir.Examples.Data.{
  empty_module, increment, trailing, block_frame, block_slot, block_context, unary_type,
}

block_context-IsOpen : IsOpen block_context
block_context-IsOpen = record {
  valid = record { frames = (omega arith, tt); slots = ((omega arith, tt), tt) };
  has_frame = omega arith;
}

-- A turn on `i32.add`, which is one operand short.
abbrev add_code : Stream
add_code = record { s = 0x6a ∷ 0x0b ∷ []; p = 0 }

decode_turn-validator_callbacks_example :
    Post
      (Turned IsWellFormed add_code)
      (IsBadTurn empty_module add_code)
      (decode_turn validator_callbacks empty_module add_code block_context)
decode_turn-validator_callbacks_example =
    decode_turn-validator_callbacks empty_module add_code block_context block_context-IsOpen

trailing-fault : validate_func empty_module trailing ≡ some fault
unfolding validate_func decode_function on_decode_begin parse_types parse_types_loop push_ctrl
    push_vals push_val decode_loop decode_turn read_u8 read_vi7 stream_from remaining byte decode_op
    decode_branch decode_parametric no_imm on_end pop_ctrl pop_vals pop_vals_to_vec pop_each
    resolve_slots on_drop pop_val back_frame one_of
trailing-fault = refl

-- A function that adds one is accepted, and needs two slots for its operands.
increment-ok :
    validate_func empty_module increment ≡ some (ok (record increment { stack_size_max = 2 }))
unfolding validate_func decode_function on_decode_begin parse_types parse_types_loop push_ctrl
    push_vals push_val decode_loop decode_turn read_u8 read_vi7 stream_from remaining byte decode_op
    decode_branch decode_parametric decode_variable decode_memory decode_const decode_reference
    decode_numeric u32_imm const_imm read_vu32 read_vi32 unsigned_loop signed_loop on_local_get
    on_i32_const on_ibinop pop2_push pop_drop pop_val_expect no_imm on_end pop_ctrl pop_vals
    pop_vals_to_vec pop_each resolve_slots pop_val back_frame one_of is_value_type is_num is_vec
    is_ref on_decode_end link_from
increment-ok = refl

abbrev first_frame : CtrlFrame
first_frame = record {
  type = bt_func;
  ftype = unary_type;
  start_types = type_id_i32 ∷ [];
  end_types = type_id_i32 ∷ [];
  height = 0;
  unreachable = false;
  pending_jt_slots = [];
  pc = 0;
}

on_end-landing_example : All (Landed 9 (record block_slot { target_offset = 6 } ∷ [])) (0 ∷ [])
on_end-landing_example =
    on_end-landing (record { s = []; p = 9 }) block_context block_ended block_frame [] refl
      on_end-ok

unreachable-ok :
    set_unreachable block_context
    ≡ ok (record block_context {
      val_stack = [];
      ctrl_stack = record block_frame { unreachable = true } ∷ [];
    })
unfolding set_unreachable back_frame
unreachable-ok = refl

pop_vals-set_unreachable_example :
    pop_vals (type_id_i32 ∷ type_id_i64 ∷ []) (record block_context {
      val_stack = [];
      ctrl_stack = record block_frame { unreachable = true } ∷ [];
    })
    ≡ ok (record block_context {
      val_stack = [];
      ctrl_stack = record block_frame { unreachable = true } ∷ [];
    })
pop_vals-set_unreachable_example =
    pop_vals-set_unreachable (type_id_i32 ∷ type_id_i64 ∷ []) block_context _ unreachable-ok

increment-begins :
    on_decode_begin (start_context empty_module increment)
    ≡ ok (record (start_context empty_module increment) {
      locals = type_id_i32 ∷ [];
      ctrl_stack = first_frame ∷ [];
      stack_size_max = 1;
    })
unfolding on_decode_begin parse_types parse_types_loop push_ctrl push_vals push_val read_vi7
    stream_from is_value_type is_num is_vec is_ref one_of
increment-begins = refl

Reaches-IsWellFormed_example : IsWellFormed (record (start_context empty_module increment) {
  locals = type_id_i32 ∷ [];
  ctrl_stack = first_frame ∷ [];
  stack_size_max = 1;
})
Reaches-IsWellFormed_example =
    Reaches-IsWellFormed empty_module increment (stream_from increment.code) _
      (start increment-begins)

validate_func-fault_example :
    (code : Stream) × (ctx : Context) × Reaches empty_module trailing code ctx
    × IsLost empty_module code ctx
validate_func-fault_example = validate_func-fault empty_module trailing trailing-fault

on_br_table-Post_example : Post IsOpen (IsNullTable add_code) (on_br_table add_code block_context)
on_br_table-Post_example = on_br_table-Post add_code block_context block_context-IsOpen

decode_function-ne-none_example :
    decode_function validator_callbacks empty_module increment
      (start_context empty_module increment)
    ≢ none
decode_function-ne-none_example =
    decode_function-ne-none validator_callbacks empty_module increment
      (start_context empty_module increment)

pushed :
    push_vals (type_id_i32 ∷ type_id_i64 ∷ []) block_context
    ≡ ok (record block_context {
      val_stack = type_id_i64 ∷ type_id_i32 ∷ type_id_i32 ∷ [];
      stack_size_max = 3;
    })
unfolding push_vals push_val
pushed = refl

pop_vals-push_vals_example :
    pop_vals (type_id_i32 ∷ type_id_i64 ∷ []) (record block_context {
      val_stack = type_id_i64 ∷ type_id_i32 ∷ type_id_i32 ∷ [];
      stack_size_max = 3;
    })
    ≡ ok (record block_context { stack_size_max = 3 })
pop_vals-push_vals_example =
    pop_vals-push_vals (type_id_i32 ∷ type_id_i64 ∷ []) block_context _ block_context-IsOpen pushed

decode_op-signature_example :
    decode_op validator_callbacks empty_module 0x6a add_code block_context
    ≡ apply_signature (signature 0x6a) add_code block_context
decode_op-signature_example =
    decode_op-signature empty_module 0x6a add_code block_context (omega arith) (omega arith)
