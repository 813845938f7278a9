-- ===== src/Parser/Types.antt =====
-- `parse_section_type` of src/runtime/parser.c.
pub mod Parses
use silverfir.Prelude.{ℕ, ltb, ◌!=◌, if◌then◌else◌, List, [], ◌∷◌, ◌++◌, take, drop, true}
use silverfir.Result.{Result, ok, err, invalid, ◌>>=◌}
use silverfir.Stream.{Stream, read_vi7, read_vu7}
use silverfir.Stream.Leb.{read_vu32}
use silverfir.Format.{is_value_type}
use silverfir.Module.{FuncType, Module}
use silverfir.Parser.{for_each, at_end, reserve}

abbrev pub result_type_count_max : ℕ
result_type_count_max = 0xffff

unfoldable pub check_value_type : Unit {0} → Stream → Result (Unit {0} × Stream)
check_value_type _ st = do
  (t, st') ← read_vi7 st
  if is_value_type t then ok (tt, st') else err invalid

-- The count of parameters or of results and the types, which the module keeps as their bytes.
unfoldable pub parse_result_types : Stream → Result ((ℕ × List ℕ) × Stream)
parse_result_types st = do
  (count, st1) ← read_vu32 st
  if ltb result_type_count_max count then err invalid else do
    (_, st2) ← for_each count check_value_type tt st1
    ok ((count, take count (drop st1.p st1.s)), st2)

unfoldable pub parse_func_type : List FuncType → Stream → Result (List FuncType × Stream)
parse_func_type types st = do
  (form, st1) ← read_vu7 st
  if form != 0x60 then err invalid else do
    ((param_count, params), st2) ← parse_result_types st1
    ((result_count, results), st3) ← parse_result_types st2
    ok (
      types
          ++ (record {
            param_count = param_count;
            result_count = result_count;
            params = params;
            results = results;
          }
              ∷ []),
      st3,
    )

unfoldable pub parse_section_type : Module → Stream → Result Module
parse_section_type mod' st = do
  (count, st1) ← read_vu32 st
  _ ← reserve mod'.flags.func_types_fixed
  types ← (for_each count parse_func_type mod'.func_types st1 >>= at_end)
  ok (record mod' { func_types = types; flags = record (mod'.flags) { func_types_fixed = true } })
