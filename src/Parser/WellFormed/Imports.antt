-- ===== src/Parser/WellFormed/Imports.antt =====
-- The import section of src/runtime/parser.c keeps a module well formed.
use silverfir.Prelude.{
  ℕ, Bool, ◌≤◌, not, ◌!=◌, ◌&&◌, arith, List, length, get_elem?, length-append, All-get_elem,
}
use silverfir.Result.Post.{Post, returns, throws, Post-if, Post-found, ◌⟫◌}
use silverfir.Format.{is_ref, is_value_type}
use silverfir.Stream.{Stream}
use silverfir.Stream.Moves.{read_u8-Post, read_vu32-Post, read_vi7-Post}
use silverfir.Module.{Module, ImportPath}
use silverfir.Parser.Imports.{
  import_function, import_table, import_memory, import_global, import_of_kind, parse_import,
  parse_section_import, wasm_mem_max_pages, u32_max,
}
use silverfir.Parser.Rules.{Of, for_each-Post, at_end-Post, parse_limits-Post, parse_name-Post}
use silverfir.Parser.WellFormed.{HasTypes, IsWellFormed}
use silverfir.Parser.WellFormed.Growth.{add_func, add_table, add_memory, add_global}

-- The counter of imported functions goes up with the vector.
with_imported :
    {m : Module} (n : ℕ)
    → IsWellFormed m
    → n ≤ length m.funcs
    → IsWellFormed (record m { imported_func_count = n })
with_imported n w h = ground arith

with_counts :
    {m : Module} (tables memories globals : ℕ)
    → IsWellFormed m
    → IsWellFormed (record m {
      imported_table_count = tables;
      imported_mem_count = memories;
      imported_global_count = globals;
    })
with_counts tables memories globals w = ground arith

module _ {F : Type 0} (path : ImportPath) (m : Module) (st : Stream) (w : IsWellFormed m) where
  import_function-Kept : Post (Of IsWellFormed) F (import_function path m st)
  unfolding import_function
  import_function-Kept = read_vu32-Post st ⟫ λ (typeidx, st1) _.
      Post-found (get_elem? m.func_types typeidx) _ _ (λ _. throws)
        (λ fn_type e.
          let h = All-get_elem HasTypes m.func_types typeidx fn_type w.func_types e in
          let v = add_func w _ h in
          returns (with_imported _ v (omega (arith, w.imported, length-append m.funcs _))))

  import_table-Kept : Post (Of IsWellFormed) F (import_table path m st)
  unfolding import_table
  import_table-Kept = read_vi7-Post st ⟫ λ (valtype, st1) _.
      Post-if (not (is_ref valtype)) _ _ (λ _. throws)
        (λ e. parse_limits-Post st1 u32_max ⟫ λ (lim, st2) h.
          returns (with_counts _ _ _ (add_table w _ (ground arith, h))))

  import_memory-Kept : Post (Of IsWellFormed) F (import_memory path m st)
  unfolding import_memory
  import_memory-Kept = parse_limits-Post st wasm_mem_max_pages ⟫ λ (lim, st1) h.
      returns (with_counts _ _ _ (add_memory w _ h))

  import_global-Kept : Post (Of IsWellFormed) F (import_global path m st)
  unfolding import_global
  import_global-Kept = read_vi7-Post st ⟫ λ (valtype, st1) _.
      Post-if (not (is_value_type valtype)) _ _ (λ _. throws)
        (λ e. read_u8-Post st1 ⟫ λ (mut, st2) _.
          Post-if (mut != 0 && mut != 1) _ _ (λ _. throws)
            (λ _. returns (with_counts _ _ _ (add_global w _ (ground arith)))))

  import_of_kind-Kept : (kind : ℕ) → Post (Of IsWellFormed) F (import_of_kind kind path m st)
  unfolding import_of_kind
  import_of_kind-Kept kind =
      search
        (
          Post-if, import_function-Kept, import_table-Kept, import_memory-Kept, import_global-Kept,
          throws,
        )
        depth 12

module _ {F : Type 0} (is_valid_utf8 : List ℕ → Bool) where
  parse_import-Kept :
      (m : Module) (st : Stream)
      → IsWellFormed m
      → Post (Of IsWellFormed) F (parse_import is_valid_utf8 m st)
  unfolding parse_import
  parse_import-Kept m st w = parse_name-Post is_valid_utf8 st ⟫ λ (module_name, st1) _.
      parse_name-Post is_valid_utf8 st1 ⟫ λ (field_name, st2) _.
      read_u8-Post st2 ⟫ λ (external_kind, st3) _. import_of_kind-Kept _ m st3 w external_kind

  pub parse_section_import-IsWellFormed :
      (m : Module) (st : Stream)
      → IsWellFormed m
      → Post IsWellFormed F (parse_section_import is_valid_utf8 m st)
  unfolding parse_section_import
  parse_section_import-IsWellFormed m st w = read_vu32-Post st ⟫ λ (count, st1) _.
      for_each-Post count (parse_import is_valid_utf8) parse_import-Kept m st1 w ⟫ at_end-Post
