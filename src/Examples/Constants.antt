-- ===== src/Examples/Constants.antt =====
-- Constant expressions and segments, for src/interpreter/const_expr_eval.c and `table_init`.
use silverfir.Prelude.{◌≡◌, ◌<◌, refl, arith, true, false, [], ◌∷◌, one_of, All}
use silverfir.Result.{ok, fault}
use silverfir.Module.{Element}
use silverfir.Stream.Unchecked.{read_vu32_unchecked}
use silverfir.Interpreter.{Instance}
use silverfir.Interpreter.Bulk.{splice}
use silverfir.Interpreter.Segments.{exec_table_init}
use silverfir.Interpreter.Segments.Functions.{refs_of, exec_table_init-functions}
use silverfir.Interpreter.Constant.{
  ConstInst, reduce_op, reduce_loop, single, interp_reduce_const_expr,
}
use silverfir.Interpreter.Constant.Instructions.{HasValueType}
use silverfir.Interpreter.Constant.Runs.{start, NamesNoFunction}
use silverfir.Interpreter.Constant.Total.{interp_reduce_const_expr-Post}
use silverfir.Interpreter.Constant.Faults.{interp_reduce_const_expr-fault}
use silverfir.Result.Post.{Post}
use silverfir.Stream.{Stream, stream_from, remaining, byte, read_u8}
use silverfir.Stream.Leb.{read_vu32, read_vi32, unsigned_loop, signed_loop}
use silverfir.Format.{type_id_i32, type_id_i64, is_value_type, is_num, is_vec, is_ref}
use silverfir.Parser.Elements.{zero_element}
use silverfir.Examples.Data.{empty_module}
use silverfir.Examples.Machines.{instance_of, machine}

-- A segment of two function indices, put into a table of three.
abbrev indices : Element
indices = record zero_element { data_len = 2; v_funcidx = 1 ∷ 0 ∷ [] }

abbrev table_init : Instance
table_init = record (instance_of (0 ∷ 0 ∷ [])) {
  mod' = record empty_module { elements = indices ∷ [] };
}

indices-known : All (λ i. i < 2) (1 ∷ 0 ∷ [])
indices-known = (omega arith, (omega arith, tt))

exec_table_init-functions_example :
    exec_table_init table_init (record machine { stack = 2 ∷ 0 ∷ 1 ∷ [] })
    ≡ ok (record machine { pc = 2; tables = (5 ∷ 65 ∷ 64 ∷ []) ∷ [] })
unfolding read_vu32_unchecked splice refs_of
exec_table_init-functions_example =
    exec_table_init-functions table_init machine 2 0 1 [] 0 (5 ∷ 6 ∷ 7 ∷ []) indices false refl refl
      refl refl indices-known (omega arith) (omega arith)

-- i32.const 7; end, and a function index that no function has.
abbrev constants : ConstInst
constants = record {
  globals = 1;
  g_addrs = record { type = type_id_i64; val = 3 } ∷ [];
  f_addrs = 64 ∷ [];
}

interp_reduce_const_expr-Post_example :
    Post HasValueType
      (NamesNoFunction constants false (stream_from (0x41 ∷ 0x07 ∷ 0x0b ∷ [])))
      (interp_reduce_const_expr constants (stream_from (0x41 ∷ 0x07 ∷ 0x0b ∷ [])) false)
unfolding is_value_type is_num is_vec is_ref one_of stream_from
interp_reduce_const_expr-Post_example =
    interp_reduce_const_expr-Post constants (stream_from (0x41 ∷ 0x07 ∷ 0x0b ∷ [])) false
      (omega arith) (refl, tt)

i32_const-ok :
    interp_reduce_const_expr constants (stream_from (0x41 ∷ 0x07 ∷ 0x0b ∷ [])) false
    ≡ ok (record { type = type_id_i32; val = 7 })
unfolding interp_reduce_const_expr reduce_loop reduce_op single stream_from remaining read_u8 byte
    read_vi32 signed_loop
i32_const-ok = refl

-- ref.func 1; end
abbrev no_function : Stream
no_function = record { s = 0xd2 ∷ 0x01 ∷ 0x0b ∷ []; p = 0 }

no_function-NamesNoFunction : NamesNoFunction constants true no_function
unfolding remaining read_u8 byte read_vu32 unsigned_loop
no_function-NamesNoFunction = record {
  st = no_function;
  after = record no_function { p = 1 };
  end' = record no_function { p = 2 };
  f_idx = 1;
  reached = start;
  instruction = record { left = refl; fetched = refl; allowed = refl; goes_on = refl };
  index = refl;
  missing = omega arith;
}

interp_reduce_const_expr-fault_example : interp_reduce_const_expr constants no_function true ≡ fault
unfolding is_value_type is_num is_vec is_ref one_of
interp_reduce_const_expr-fault_example =
    interp_reduce_const_expr-fault constants no_function true (omega arith) (refl, tt)
      no_function-NamesNoFunction
