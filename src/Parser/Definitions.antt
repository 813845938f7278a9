-- ===== src/Parser/Definitions.antt =====
-- `parse_section_function`, `parse_section_table`, `parse_section_memory` and `parse_section_global`
-- of src/runtime/parser.c.
use silverfir.Prelude.{
  true, not, ◌&&◌, ◌!=◌, if◌then◌else◌, List, ◌∷◌, [], ◌++◌, none, some, get_elem?,
}
use silverfir.Result.{Result, ok, err, malformed, invalid, ◌>>=◌}
use silverfir.Stream.{Stream, read_u8, read_vi7}
use silverfir.Stream.Leb.{read_vu32}
use silverfir.Format.{is_ref, is_value_type}
use silverfir.Module.{Module, FuncType, Func, Table, Memory, Global, linkage_none}
use silverfir.Parser.{for_each, at_end, reserve, parse_limits, parse_const_expr}
use silverfir.Parser.Imports.{no_code, wasm_mem_max_pages, u32_max}

unfoldable pub parse_function : List FuncType → List Func → Stream → Result (List Func × Stream)
parse_function func_types funcs st = do
  (typeidx, st1) ← read_vu32 st
  elim (get_elem? func_types typeidx) [
    | none ↦ err invalid
    | some fn_type ↦ ok (
      funcs
          ++ (record (no_code fn_type) { linkage = linkage_none; local_count = fn_type.param_count }
              ∷ []),
      st1,
    )
  ]

unfoldable pub parse_section_function : Module → Stream → Result Module
parse_section_function mod' st = do
  (count, st1) ← read_vu32 st
  _ ← reserve mod'.flags.funcs_fixed
  funcs ← (for_each count (parse_function mod'.func_types) mod'.funcs st1 >>= at_end)
  ok (record mod' { funcs = funcs; flags = record (mod'.flags) { funcs_fixed = true } })

unfoldable pub parse_table : List Table → Stream → Result (List Table × Stream)
parse_table tables st = do
  (valtype, st1) ← read_vi7 st
  if not (is_ref valtype) then err invalid else do
    (lim, st2) ← parse_limits st1 u32_max
    ok (
      tables ++ (record { valtype = valtype; lim = lim; linkage = linkage_none; path = none } ∷ []),
      st2,
    )

unfoldable pub parse_section_table : Module → Stream → Result Module
parse_section_table mod' st = do
  (count, st1) ← read_vu32 st
  _ ← reserve mod'.flags.tables_fixed
  tables ← (for_each count parse_table mod'.tables st1 >>= at_end)
  ok (record mod' { tables = tables; flags = record (mod'.flags) { tables_fixed = true } })

unfoldable pub parse_memory : List Memory → Stream → Result (List Memory × Stream)
parse_memory memories st = do
  (lim, st1) ← parse_limits st wasm_mem_max_pages
  ok (memories ++ (record { lim = lim; linkage = linkage_none; path = none } ∷ []), st1)

unfoldable pub parse_section_memory : Module → Stream → Result Module
parse_section_memory mod' st = do
  (count, st1) ← read_vu32 st
  _ ← reserve mod'.flags.memories_fixed
  memories ← (for_each count parse_memory mod'.memories st1 >>= at_end)
  ok (record mod' { memories = memories; flags = record (mod'.flags) { memories_fixed = true } })

unfoldable pub parse_global : List Global → Stream → Result (List Global × Stream)
parse_global globals st = do
  (valtype, st1) ← read_vi7 st
  if not (is_value_type valtype) then err invalid else do
    (mut, st2) ← read_u8 st1
    if mut != 0 && mut != 1 then err malformed else do
      (expr, st3) ← parse_const_expr st2
      ok (
        globals
            ++ (record {
              valtype = valtype;
              mut = mut != 0;
              expr = expr;
              linkage = linkage_none;
              path = none;
            }
                ∷ []),
        st3,
      )

unfoldable pub parse_section_global : Module → Stream → Result Module
parse_section_global mod' st = do
  (count, st1) ← read_vu32 st
  _ ← reserve mod'.flags.globals_fixed
  globals ← (for_each count parse_global mod'.globals st1 >>= at_end)
  ok (record mod' { globals = globals; flags = record (mod'.flags) { globals_fixed = true } })
