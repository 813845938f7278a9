-- ===== src/Parser/Binary.antt =====
-- `parse_module` of src/runtime/parser.c: the header, the order of the sections, and the loop; and
-- `module_init`.
use silverfir.Prelude.{
  ℕ, zero, suc, Bool, true, false, ◌==◌, ◌!=◌, if◌then◌else◌, List, [], ◌∷◌, none, length, drop,
}
use silverfir.Result.{Result, ok, err, fault, malformed, ◌>>=◌}
use silverfir.Stream.{Stream, stream_from, remaining, read_u32, read_vu7, slice}
use silverfir.Stream.Leb.{read_vu32}
use silverfir.Module.{Module}
use silverfir.Parser.Types.{parse_section_type}
use silverfir.Parser.Imports.{parse_section_import}
use silverfir.Parser.Definitions.{
  parse_section_function, parse_section_table, parse_section_memory, parse_section_global,
}
use silverfir.Parser.Exports.{parse_section_export, parse_section_start}
use silverfir.Parser.Elements.{parse_section_element}
use silverfir.Parser.Bodies.{parse_section_code}
use silverfir.Parser.Segments.{parse_section_data, parse_section_data_count}

-- The ids of FOR_EACH_WASM_SECTION, in its order.
abbrev pub section_order : List ℕ
section_order = 0 ∷ 1 ∷ 2 ∷ 3 ∷ 4 ∷ 5 ∷ 6 ∷ 7 ∷ 8 ∷ 9 ∷ 12 ∷ 10 ∷ 11 ∷ []

-- The loop that moves `current_order_idx` on to an id, through what `order` has from there on.
unfoldable pub find_section : ℕ → List ℕ → ℕ → ℕ
find_section id [] idx = idx
find_section id (x ∷ rest) idx = if x != id then find_section id rest (suc idx) else idx

unfoldable pub advance_order : ℕ → ℕ → Result ℕ
advance_order id idx =
    let idx' = find_section id (drop idx section_order) idx in
    if id == 0 then ok idx else if idx' == length section_order then err malformed else ok idx'

-- A zeroed module that holds its binary.
abbrev pub module_of : List ℕ → Module
module_of bytes = record {
  wasm_bin = bytes;
  format_version = 0;
  func_types = [];
  imported_func_count = 0;
  funcs = [];
  imported_table_count = 0;
  tables = [];
  imported_mem_count = 0;
  memories = [];
  imported_global_count = 0;
  globals = [];
  exports = [];
  start_funcidx = none;
  elements = [];
  data_count = none;
  segments = [];
  flags = record {
    func_types_fixed = false;
    funcs_fixed = false;
    tables_fixed = false;
    memories_fixed = false;
    globals_fixed = false;
    exports_fixed = false;
    elements_fixed = false;
    elements_capacity = 0;
    segments_fixed = false;
  };
}

module _ (is_valid_utf8 : List ℕ → Bool) where
  -- The switch that calls the parser of a section; a custom section is skipped.
  unfoldable pub parse_section : ℕ → Module → Stream → Result Module
  parse_section id mod' st =
      if id == 0
      then ok mod'
      else if id == 1
      then parse_section_type mod' st
      else if id == 2
      then parse_section_import is_valid_utf8 mod' st
      else if id == 3
      then parse_section_function mod' st
      else if id == 4
      then parse_section_table mod' st
      else if id == 5
      then parse_section_memory mod' st
      else if id == 6
      then parse_section_global mod' st
      else if id == 7
      then parse_section_export is_valid_utf8 mod' st
      else if id == 8
      then parse_section_start mod' st
      else if id == 9
      then parse_section_element mod' st
      else if id == 12
      then parse_section_data_count mod' st
      else if id == 10
      then parse_section_code mod' st
      else if id == 11
      then parse_section_data mod' st
      else err malformed

  -- A round: a section, unless its payload is empty.
  unfoldable pub parse_round : ℕ → Module → Stream → Result ((ℕ × Module) × Stream)
  parse_round order_idx mod' st = do
    (id, st1) ← read_vu7 st
    (payload_len, st2) ← read_vu32 st1
    order_idx' ← advance_order id order_idx
    if payload_len == 0 then ok ((order_idx', mod'), st2) else do
      (section_content, st3) ← slice st2 payload_len
      parsed ← parse_section id mod' section_content
      ok ((order_idx', parsed), st3)

  -- The loop, on fuel; a round takes a byte at least, so that the bytes left are enough.
  unfoldable pub parse_sections : ℕ → ℕ → Module → Stream → Result Module
  unfolding remaining
  parse_sections zero order_idx mod' st = fault
  parse_sections (suc fuel) order_idx mod' st = elim (remaining st == 0) [
    | true ↦ ok mod'
    | false ↦ do
      ((order_idx', parsed), st') ← parse_round order_idx mod' st
      parse_sections fuel order_idx' parsed st'
  ]

  unfoldable pub parse_module : Module → Result Module
  unfolding remaining
  parse_module mod' = if length mod'.wasm_bin == 0 then err malformed else do
    (magic, st1) ← read_u32 (stream_from mod'.wasm_bin)
    if magic != 0x6d736100 then err malformed else do
      (version, st2) ← read_u32 st1
      if version != 1
          then err malformed
          else parse_sections (suc (remaining st2)) 0 (record mod' { format_version = version }) st2

  -- `module_init` of src/runtime/module.c, but for the name of the module.
  unfoldable pub module_init : List ℕ → Result Module
  module_init bin = parse_module (module_of bin)
