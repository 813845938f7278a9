-- ===== src/Parser/WellFormed/Definitions.antt =====
-- The sections of functions, tables, memories and globals of src/runtime/parser.c keep a module well
-- formed.
use silverfir.Prelude.{not, ◌&&◌, ◌!=◌, arith, List, get_elem?, All-get_elem}
use silverfir.Result.Post.{Post, returns, throws, Post-if, Post-found, ◌⟫◌}
use silverfir.Format.{is_ref, is_value_type}
use silverfir.Stream.{Stream}
use silverfir.Stream.Moves.{read_u8-Post, read_vu32-Post, read_vi7-Post}
use silverfir.Module.{Module, Func, Table, Memory, Global}
use silverfir.Parser.Imports.{wasm_mem_max_pages, u32_max}
use silverfir.Parser.Definitions.{
  parse_function, parse_section_function, parse_table, parse_section_table, parse_memory,
  parse_section_memory, parse_global, parse_section_global,
}
use silverfir.Parser.Rules.{
  Of, for_each-Post, at_end-Post, reserve-Post, parse_limits-Post, parse_const_expr-Post,
}
use silverfir.Parser.WellFormed.{HasTypes, IsWellFormed}
use silverfir.Parser.WellFormed.Growth.{with_flags, add_func, add_table, add_memory, add_global}

module _ {F : Type 0} (m : Module) where
  parse_function-Kept :
      (funcs : List Func) (st : Stream)
      → IsWellFormed (record m { funcs = funcs })
      → Post
          (Of (λ fs. IsWellFormed (record m { funcs = fs })))
          F
          (parse_function m.func_types funcs st)
  unfolding parse_function
  parse_function-Kept funcs st w = read_vu32-Post st ⟫ λ (typeidx, st1) _.
      Post-found (get_elem? m.func_types typeidx) _ _ (λ _. throws)
        (λ fn_type e.
          returns
            (add_func w _ (All-get_elem HasTypes m.func_types typeidx fn_type w.func_types e)))

  pub parse_section_function-IsWellFormed :
      (st : Stream) → IsWellFormed m → Post IsWellFormed F (parse_section_function m st)
  unfolding parse_section_function
  parse_section_function-IsWellFormed st w = read_vu32-Post st ⟫ λ (count, st1) _.
      reserve-Post m.flags.funcs_fixed ⟫ λ _ _.
      (for_each-Post count (parse_function m.func_types) parse_function-Kept m.funcs st1 w
        ⟫ at_end-Post)
      ⟫ λ funcs v. returns (with_flags v _)

  parse_table-Kept :
      (tables : List Table) (st : Stream)
      → IsWellFormed (record m { tables = tables })
      → Post (Of (λ ts. IsWellFormed (record m { tables = ts }))) F (parse_table tables st)
  unfolding parse_table
  parse_table-Kept tables st w = read_vi7-Post st ⟫ λ (valtype, st1) _.
      Post-if (not (is_ref valtype)) _ _ (λ _. throws)
        (λ e.
          parse_limits-Post st1 u32_max ⟫ λ (lim, st2) h. returns (add_table w _ (ground arith, h)))

  pub parse_section_table-IsWellFormed :
      (st : Stream) → IsWellFormed m → Post IsWellFormed F (parse_section_table m st)
  unfolding parse_section_table
  parse_section_table-IsWellFormed st w = read_vu32-Post st ⟫ λ (count, st1) _.
      reserve-Post m.flags.tables_fixed ⟫ λ _ _.
      (for_each-Post count parse_table parse_table-Kept m.tables st1 w ⟫ at_end-Post) ⟫ λ tables v.
      returns (with_flags v _)

  parse_memory-Kept :
      (memories : List Memory) (st : Stream)
      → IsWellFormed (record m { memories = memories })
      → Post (Of (λ ms. IsWellFormed (record m { memories = ms }))) F (parse_memory memories st)
  unfolding parse_memory
  parse_memory-Kept memories st w =
      parse_limits-Post st wasm_mem_max_pages ⟫ λ (lim, st1) h. returns (add_memory w _ h)

  pub parse_section_memory-IsWellFormed :
      (st : Stream) → IsWellFormed m → Post IsWellFormed F (parse_section_memory m st)
  unfolding parse_section_memory
  parse_section_memory-IsWellFormed st w = read_vu32-Post st ⟫ λ (count, st1) _.
      reserve-Post m.flags.memories_fixed ⟫ λ _ _.
      (for_each-Post count parse_memory parse_memory-Kept m.memories st1 w ⟫ at_end-Post)
      ⟫ λ memories v. returns (with_flags v _)

  parse_global-Kept :
      (globals : List Global) (st : Stream)
      → IsWellFormed (record m { globals = globals })
      → Post (Of (λ gs. IsWellFormed (record m { globals = gs }))) F (parse_global globals st)
  unfolding parse_global
  parse_global-Kept globals st w = read_vi7-Post st ⟫ λ (valtype, st1) _.
      Post-if (not (is_value_type valtype)) _ _ (λ _. throws)
        (λ e. read_u8-Post st1 ⟫ λ (mut, st2) _.
          Post-if (mut != 0 && mut != 1) _ _ (λ _. throws)
            (λ _.
              parse_const_expr-Post st2 ⟫ λ (expr, st3) _. returns (add_global w _ (ground arith))))

  pub parse_section_global-IsWellFormed :
      (st : Stream) → IsWellFormed m → Post IsWellFormed F (parse_section_global m st)
  unfolding parse_section_global
  parse_section_global-IsWellFormed st w = read_vu32-Post st ⟫ λ (count, st1) _.
      reserve-Post m.flags.globals_fixed ⟫ λ _ _.
      (for_each-Post count parse_global parse_global-Kept m.globals st1 w ⟫ at_end-Post)
      ⟫ λ globals v. returns (with_flags v _)
