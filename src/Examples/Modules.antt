-- ===== src/Examples/Modules.antt =====
-- Modules in the bytes of the format, for src/runtime/parser.c.
use silverfir.Prelude.{
  ℕ, Bool, true, false, ◌≡◌, ◌≢◌, ◌≤◌, refl, List, [], ◌∷◌, ◌++◌, length, none, some, arith,
  get_elem?, one_of,
}
use silverfir.Result.{ok, err, fault, malformed}
use silverfir.Format.{type_id_i32, is_value_type, is_num}
use silverfir.Stream.{stream_from, remaining, read_u32, read_u8, read_vi7, read_vu7, slice}
use silverfir.Stream.Leb.{read_vu32, unsigned_loop}
use silverfir.Module.{Module, FuncType, Func}
use silverfir.Parser.{for_each, at_end, reserve, parse_name}
use silverfir.Parser.Types.{
  check_value_type, parse_result_types, parse_func_type, parse_section_type,
}
use silverfir.Parser.Definitions.{parse_function, parse_section_function}
use silverfir.Parser.Exports.{
  is_valid_external_kind, mark_exported, parse_export, parse_section_export,
}
use silverfir.Parser.Bodies.{
  replicate, count_group, push_group, replicate, parse_body, parse_code, parse_section_code,
}
use silverfir.Parser.Binary.{
  find_section, advance_order, parse_section, parse_round, parse_sections, parse_module, module_of,
  module_init, section_order,
}
use silverfir.Parser.WellFormed.{IsWellFormed}
use silverfir.Parser.WellFormed.Sections.{module_init-IsWellFormed, module_init-ne-fault}
use silverfir.Parser.Locals.{locals_of}
use silverfir.Parser.Locals.Sections.{module_init-locals_of}
use silverfir.Parser.Entry.{module_init-on_decode_begin}
use silverfir.Parser.Header.{header, module_init-malformed}
use silverfir.Parser.Order.{advance_order-place}
use silverfir.Validator.Context.{Context}
use silverfir.Examples.Data.{unary_type}
use silverfir.Validator.Control.{on_decode_begin}
use silverfir.Validator.Callbacks.{start_context}

-- A test that takes every name.
abbrev any_name : List ℕ → Bool
any_name name = true

-- (module (func (export "f") (result i32) i32.const 7))
abbrev seven : List ℕ
seven =
    header
    ++ ((0x01 ∷ 0x05 ∷ 0x01 ∷ 0x60 ∷ 0x00 ∷ 0x01 ∷ 0x7f ∷ [])
        ++ ((0x03 ∷ 0x02 ∷ 0x01 ∷ 0x00 ∷ [])
            ++ ((0x07 ∷ 0x05 ∷ 0x01 ∷ 0x01 ∷ 0x66 ∷ 0x00 ∷ 0x00 ∷ [])
                ++ (0x0a ∷ 0x06 ∷ 0x01 ∷ 0x04 ∷ 0x00 ∷ 0x41 ∷ 0x07 ∷ 0x0b ∷ []))))

abbrev seven_type : FuncType
seven_type = record { param_count = 0; result_count = 1; params = []; results = 0x7f ∷ [] }

abbrev seven_func : Func
seven_func = record {
  fn_type = seven_type;
  linkage = 2;
  local_count = 0;
  local_types = [];
  local_types_fixed = true;
  code = 0x41 ∷ 0x07 ∷ 0x0b ∷ [];
  path = none;
  jt = [];
  stack_size_max = 0;
}

abbrev seven_module : Module
seven_module = record (module_of seven) {
  format_version = 1;
  func_types = seven_type ∷ [];
  funcs = seven_func ∷ [];
  exports = record { name = 0x66 ∷ []; external_kind = 0; external_idx = 0 } ∷ [];
  flags = record {
    func_types_fixed = true;
    funcs_fixed = true;
    tables_fixed = false;
    memories_fixed = false;
    globals_fixed = false;
    exports_fixed = true;
    elements_fixed = false;
    elements_capacity = 0;
    segments_fixed = false;
  };
}

seven_parsed : module_init any_name seven ≡ ok seven_module
unfolding module_init parse_module parse_sections parse_round parse_section advance_order
    find_section stream_from remaining read_u32 read_vu7 read_vu32 unsigned_loop slice
    parse_section_type for_each at_end reserve parse_func_type parse_result_types check_value_type
    is_value_type read_vi7 parse_section_function parse_function parse_section_export parse_export
    parse_name read_u8 is_valid_external_kind one_of mark_exported parse_section_code parse_code
    parse_body count_group push_group
seven_parsed = refl

-- (module (func (param i32) (result i32) (local i32) local.get 0))
abbrev counting : List ℕ
counting =
    header
    ++ ((0x01 ∷ 0x06 ∷ 0x01 ∷ 0x60 ∷ 0x01 ∷ 0x7f ∷ 0x01 ∷ 0x7f ∷ [])
        ++ ((0x03 ∷ 0x02 ∷ 0x01 ∷ 0x00 ∷ [])
            ++ (0x0a ∷ 0x08 ∷ 0x01 ∷ 0x06 ∷ 0x01 ∷ 0x01 ∷ 0x7f ∷ 0x20 ∷ 0x00 ∷ 0x0b ∷ [])))

abbrev counting_func : Func
counting_func = record {
  fn_type = unary_type;
  linkage = 0;
  local_count = 2;
  local_types = type_id_i32 ∷ [];
  local_types_fixed = true;
  code = 0x20 ∷ 0x00 ∷ 0x0b ∷ [];
  path = none;
  jt = [];
  stack_size_max = 0;
}

abbrev counting_module : Module
counting_module = record (module_of counting) {
  format_version = 1;
  func_types = unary_type ∷ [];
  funcs = counting_func ∷ [];
  flags = record {
    func_types_fixed = true;
    funcs_fixed = true;
    tables_fixed = false;
    memories_fixed = false;
    globals_fixed = false;
    exports_fixed = false;
    elements_fixed = false;
    elements_capacity = 0;
    segments_fixed = false;
  };
}

counting_parsed : module_init any_name counting ≡ ok counting_module
unfolding module_init parse_module parse_sections parse_round parse_section advance_order
    find_section stream_from remaining read_u32 read_vu7 read_vu32 unsigned_loop slice
    parse_section_type for_each at_end reserve parse_func_type parse_result_types check_value_type
    is_value_type is_num one_of read_u8 read_vi7 parse_section_function parse_function
    parse_section_code parse_code parse_body count_group push_group replicate
counting_parsed = refl

module_init-IsWellFormed_example : IsWellFormed seven_module
module_init-IsWellFormed_example = module_init-IsWellFormed any_name seven seven_module seven_parsed

module_init-ne-fault_example : module_init any_name seven ≢ fault
module_init-ne-fault_example = module_init-ne-fault any_name seven

module_init-on_decode_begin_example :
    (1 ≤ 2)
    × (ctx : Context) × (on_decode_begin (start_context counting_module counting_func) ≡ ok ctx)
    × (length ctx.locals ≡ 2)
module_init-on_decode_begin_example =
    module_init-on_decode_begin any_name counting counting_module 0 counting_func counting_parsed
      refl refl (omega arith)

module_init-locals_of_example : counting_func.local_count ≡ locals_of counting_func
module_init-locals_of_example =
    module_init-locals_of any_name counting counting_module 0 counting_func counting_parsed refl
      refl (omega arith)

-- The start of a program in another format.
module_init-malformed_example :
    module_init any_name (0x7f ∷ 0x45 ∷ 0x4c ∷ 0x46 ∷ []) ≡ err malformed
module_init-malformed_example =
    module_init-malformed any_name (0x7f ∷ 0x45 ∷ 0x4c ∷ 0x46 ∷ [])
      (omega arith, (omega arith, (omega arith, (omega arith, tt)))) (λ e. cc)

third_place : advance_order 3 1 ≡ ok 3
unfolding advance_order find_section
third_place = refl

advance_order-place_example :
    (1 ≤ 3) × (get_elem? section_order 3 ≡ some 3) × (advance_order 3 3 ≡ ok 3)
advance_order-place_example = advance_order-place 3 1 3 (λ e. cc) (omega arith) third_place
