-- ===== src/Parser/Imports.antt =====
-- `parse_section_import` of src/runtime/parser.c. The vectors of a module are not fixed yet where the
-- order of the sections lets it run.
use silverfir.Prelude.{
  ℕ, ◌+◌, ◌-◌, ◌^◌, Bool, not, false, ◌&&◌, ◌==◌, ◌!=◌, if◌then◌else◌, u32, List, [], ◌∷◌, ◌++◌,
  none, some, get_elem?,
}
use silverfir.Result.{Result, ok, err, malformed, invalid, ◌>>=◌}
use silverfir.Stream.{Stream, read_u8, read_vi7}
use silverfir.Stream.Leb.{read_vu32}
use silverfir.Format.{is_ref, is_value_type}
use silverfir.Module.{Module, ImportPath, FuncType, Func, linkage_imported}
use silverfir.Parser.{for_each, at_end, parse_limits, parse_name}

-- `external_kind` of src/common/wasm_format.h.
abbrev pub external_kind_function : ℕ
external_kind_function = 0

abbrev pub external_kind_table : ℕ
external_kind_table = 1

abbrev pub external_kind_memory : ℕ
external_kind_memory = 2

abbrev pub external_kind_global : ℕ
external_kind_global = 3

abbrev pub wasm_mem_max_pages : ℕ
wasm_mem_max_pages = 65536

abbrev pub u32_max : ℕ
u32_max = 2 ^ 32 - 1

abbrev pub no_code : FuncType → Func
no_code fn_type = record {
  fn_type = fn_type;
  linkage = 0;
  local_count = 0;
  local_types = [];
  local_types_fixed = false;
  code = [];
  path = none;
  jt = [];
  stack_size_max = 0;
}

unfoldable pub import_function : ImportPath → Module → Stream → Result (Module × Stream)
import_function path mod' st = do
  (typeidx, st1) ← read_vu32 st
  elim (get_elem? mod'.func_types typeidx) [
    | none ↦ err invalid
    | some fn_type ↦ ok (
      record mod' {
        funcs =
            mod'.funcs
            ++ (record (no_code fn_type) { linkage = linkage_imported; path = some path } ∷ []);
        imported_func_count = u32 (mod'.imported_func_count + 1);
      },
      st1,
    )
  ]

unfoldable pub import_table : ImportPath → Module → Stream → Result (Module × Stream)
import_table path mod' st = do
  (valtype, st1) ← read_vi7 st
  if not (is_ref valtype) then err invalid else do
    (lim, st2) ← parse_limits st1 u32_max
    ok (
      record mod' {
        tables =
            mod'.tables
            ++ (record {
              valtype = valtype;
              lim = lim;
              linkage = linkage_imported;
              path = some path;
            }
                ∷ []);
        imported_table_count = u32 (mod'.imported_table_count + 1);
      },
      st2,
    )

unfoldable pub import_memory : ImportPath → Module → Stream → Result (Module × Stream)
import_memory path mod' st = do
  (lim, st1) ← parse_limits st wasm_mem_max_pages
  ok (
    record mod' {
      memories =
          mod'.memories
          ++ (record { lim = lim; linkage = linkage_imported; path = some path } ∷ []);
      imported_mem_count = u32 (mod'.imported_mem_count + 1);
    },
    st1,
  )

unfoldable pub import_global : ImportPath → Module → Stream → Result (Module × Stream)
import_global path mod' st = do
  (valtype, st1) ← read_vi7 st
  if not (is_value_type valtype) then err invalid else do
    (mut, st2) ← read_u8 st1
    if mut != 0 && mut != 1
        then err malformed
        else ok (
          record mod' {
            globals =
                mod'.globals
                ++ (record {
                  valtype = valtype;
                  mut = mut != 0;
                  expr = [];
                  linkage = linkage_imported;
                  path = some path;
                }
                    ∷ []);
            imported_global_count = u32 (mod'.imported_global_count + 1);
          },
          st2,
        )

-- The switch on the kind.
unfoldable pub import_of_kind : ℕ → ImportPath → Module → Stream → Result (Module × Stream)
import_of_kind kind path mod' st =
    if kind == external_kind_function
    then import_function path mod' st
    else if kind == external_kind_table
    then import_table path mod' st
    else if kind == external_kind_memory
    then import_memory path mod' st
    else if kind == external_kind_global
    then import_global path mod' st
    else err malformed

module _ (is_valid_utf8 : List ℕ → Bool) where
  unfoldable pub parse_import : Module → Stream → Result (Module × Stream)
  parse_import mod' st = do
    (module_name, st1) ← parse_name is_valid_utf8 st
    (field_name, st2) ← parse_name is_valid_utf8 st1
    (external_kind, st3) ← read_u8 st2
    import_of_kind external_kind (record { module_name = module_name; field_name = field_name })
        mod' st3

  unfoldable pub parse_section_import : Module → Stream → Result Module
  parse_section_import mod' st = do
    (count, st1) ← read_vu32 st
    for_each count parse_import mod' st1 >>= at_end
