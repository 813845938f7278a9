-- ===== src/Examples/Numbers.antt =====
-- The decoders of src/utils/stream.h and src/common/op_decoder.c on inputs.
use silverfir.Prelude.{
  ◌-◌, ◌≡◌, ◌⊎◌, ◌↔◌, refl, true, one_of, arith, [], ◌∷◌, some, drop, All, IsByte, ◌^◌,
}
use silverfir.Result.{ok, fault}
use silverfir.Format.{type_id_ref, type_id_unknown, type_id_i64, is_num, is_value_type}
use silverfir.Stream.{Stream}
use silverfir.Stream.Leb.{read_vu32, read_vu64, unsigned_loop, read_vi32, read_vi64, signed_loop}
use silverfir.Stream.Leb.Unsigned.{from_grammar, read_vu32-unsigned, read_vu64-unsigned}
use silverfir.Stream.Leb.Signed.{read_vi32-signed, read_vi64-signed}
use silverfir.Stream.Grammar.{unsigned, signed}
use silverfir.Stream.Unchecked.{read_vu32_unchecked}
use silverfir.Stream.Unchecked.Agreement.{read_vu32_unchecked-unsigned}
use silverfir.Module.{FuncType, parse_types}
use silverfir.Decoder.BlockType.{block_func_type}
use silverfir.Decoder.BlockType.Domain.{block_func_type-fault, block_func_type-parse_types}
use silverfir.Examples.Data.{empty_module}

-- 624485 in three groups, behind one byte.
abbrev three_groups : Stream
three_groups = record { s = 0x00 ∷ 0xe5 ∷ 0x8e ∷ 0x26 ∷ []; p = 1 }

three_groups-bytes : All IsByte three_groups.s
three_groups-bytes = (omega arith, (omega arith, (omega arith, (omega arith, tt))))

read_vu32-unsigned_example :
    read_vu32 three_groups
    ≡ from_grammar three_groups (unsigned 32 (drop three_groups.p three_groups.s))
read_vu32-unsigned_example = read_vu32-unsigned three_groups three_groups-bytes

read_vu64-unsigned_example :
    read_vu64 three_groups
    ≡ from_grammar three_groups (unsigned 64 (drop three_groups.p three_groups.s))
read_vu64-unsigned_example = read_vu64-unsigned three_groups three_groups-bytes

-- -123456 in three groups.
abbrev negative : Stream
negative = record { s = 0xc0 ∷ 0xbb ∷ 0x78 ∷ []; p = 0 }

negative-bytes : All IsByte negative.s
negative-bytes = (omega arith, (omega arith, (omega arith, tt)))

read_vi32-signed_example :
    read_vi32 negative ≡ from_grammar negative (signed 32 (drop negative.p negative.s))
read_vi32-signed_example = read_vi32-signed negative negative-bytes

read_vi64-signed_example :
    read_vi64 negative ≡ from_grammar negative (signed 64 (drop negative.p negative.s))
read_vi64-signed_example = read_vi64-signed negative negative-bytes

read_negative : read_vi32 negative ≡ ok (2 ^ 32 - 123456, record negative { p = 3 })
unfolding read_vi32 signed_loop
read_negative = refl

read_three_groups : read_vu32 three_groups ≡ ok (624485, record three_groups { p = 4 })
unfolding read_vu32 unsigned_loop
read_three_groups = refl

grammar_three_groups : unsigned 32 (drop 1 three_groups.s) ≡ some (624485, 3)
unfolding unsigned
grammar_three_groups = refl

read_vu32_unchecked-unsigned_example : read_vu32_unchecked three_groups.s 1 ≡ (624485, 4)
read_vu32_unchecked-unsigned_example =
    read_vu32_unchecked-unsigned three_groups.s 1 624485 3 three_groups-bytes grammar_three_groups

block_func_type-fault_example :
    (block_func_type 0xeb empty_module ≡ fault) ↔ ((0xeb ≡ type_id_ref) ⊎ (0xeb ≡ type_id_unknown))
block_func_type-fault_example = block_func_type-fault 0xeb empty_module

i64_is_value_type : is_value_type type_id_i64 ≡ true
unfolding is_value_type is_num one_of
i64_is_value_type = refl

block_func_type-parse_types_example :
    (ft : FuncType) × (block_func_type type_id_i64 empty_module ≡ ok ft)
    × (parse_types ft.param_count ft.params ≡ ok [])
    × (parse_types ft.result_count ft.results ≡ ok (type_id_i64 ∷ []))
block_func_type-parse_types_example =
    block_func_type-parse_types type_id_i64 empty_module i64_is_value_type (λ e. omega arith)
      (λ e. omega arith)
