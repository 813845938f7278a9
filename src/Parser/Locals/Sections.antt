-- ===== src/Parser/Locals/Sections.antt =====
-- The counts of local variables through the sections of src/runtime/parser.c.
use silverfir.Prelude.{
  ℕ, zero, suc, ◌-◌, ◌^◌, ◌<◌, ◌≡◌, Bool, false, not, Bool-cases, inl, inr, ◌==◌, ◌!=◌, List,
  length, some, get_elem?, All-get_elem,
}
use silverfir.Result.{ok, ◌>>=◌}
use silverfir.Result.Post.{Post, returns, throws, faults, of_ok, Post-if, ◌⟫◌}
use silverfir.Stream.{Stream, remaining, stream_from, read_u8, read_u32, read_vu7, slice}
use silverfir.Stream.Leb.{read_vu32}
use silverfir.Module.{Func, Module, is_imported}
use silverfir.Parser.{for_each, at_end, reserve, parse_name}
use silverfir.Parser.Rules.{Of, for_each-Post, at_end-Post}
use silverfir.Parser.Types.{parse_func_type, parse_section_type}
use silverfir.Parser.Imports.{parse_import, parse_section_import}
use silverfir.Parser.Definitions.{
  parse_table, parse_memory, parse_global, parse_section_table, parse_section_memory,
  parse_section_global,
}
use silverfir.Parser.Exports.{is_valid_external_kind, parse_export, parse_section_export}
use silverfir.Parser.Elements.{resize_elements, parse_elements, parse_section_element}
use silverfir.Parser.Segments.{
  count_differs, parse_data, parse_section_data, parse_section_data_count,
}
use silverfir.Parser.Binary.{
  advance_order, parse_section, parse_round, parse_sections, parse_module, module_init,
}
use silverfir.Parser.Locals.{
  locals_of, IsCounted, Counted, F, anything, import_of_kind-Counted,
  parse_section_function-Counted, mark_exported-Counted, parse_section_start-Counted,
  parse_section_code-Counted,
}

-- The sections that leave the functions alone.
module _ (m : Module) (st : Stream) (c : Counted m) where
  parse_section_type-Counted : Post Counted F (parse_section_type m st)
  unfolding parse_section_type
  parse_section_type-Counted = anything (read_vu32 st) ⟫ λ (count, st1) _.
      anything (reserve m.flags.func_types_fixed) ⟫ λ _ _.
      anything (for_each count parse_func_type m.func_types st1 >>= at_end) ⟫ λ _ _. returns c

  parse_section_table-Counted : Post Counted F (parse_section_table m st)
  unfolding parse_section_table
  parse_section_table-Counted = anything (read_vu32 st) ⟫ λ (count, st1) _.
      anything (reserve m.flags.tables_fixed) ⟫ λ _ _.
      anything (for_each count parse_table m.tables st1 >>= at_end) ⟫ λ _ _. returns c

  parse_section_memory-Counted : Post Counted F (parse_section_memory m st)
  unfolding parse_section_memory
  parse_section_memory-Counted = anything (read_vu32 st) ⟫ λ (count, st1) _.
      anything (reserve m.flags.memories_fixed) ⟫ λ _ _.
      anything (for_each count parse_memory m.memories st1 >>= at_end) ⟫ λ _ _. returns c

  parse_section_global-Counted : Post Counted F (parse_section_global m st)
  unfolding parse_section_global
  parse_section_global-Counted = anything (read_vu32 st) ⟫ λ (count, st1) _.
      anything (reserve m.flags.globals_fixed) ⟫ λ _ _.
      anything (for_each count parse_global m.globals st1 >>= at_end) ⟫ λ _ _. returns c

  parse_section_element-Counted : Post Counted F (parse_section_element m st)
  unfolding parse_section_element
  parse_section_element-Counted = anything (read_vu32 st) ⟫ λ (count, st1) _.
      anything (resize_elements count m) ⟫ λ (capacity, elems) _.
      anything (parse_elements (length m.funcs) elems st1 >>= at_end) ⟫ λ _ _. returns c

  parse_section_data-Counted : Post Counted F (parse_section_data m st)
  unfolding parse_section_data
  parse_section_data-Counted = anything (read_vu32 st) ⟫ λ (count, st1) _.
      Post-if (count_differs m.data_count count) _ _ (λ _. throws)
        (λ _. anything (reserve m.flags.segments_fixed) ⟫ λ _ _.
          anything (for_each count parse_data m.segments st1 >>= at_end) ⟫ λ _ _. returns c)

  parse_section_data_count-Counted : Post Counted F (parse_section_data_count m st)
  unfolding parse_section_data_count
  parse_section_data_count-Counted = anything (read_vu32 st) ⟫ λ _ _. at_end-Post _ c

module _ (is_valid_utf8 : List ℕ → Bool) where
  parse_import-Counted :
      (m : Module) (st : Stream) → Counted m → Post (Of Counted) F (parse_import is_valid_utf8 m st)
  unfolding parse_import
  parse_import-Counted m st c = anything (parse_name is_valid_utf8 st) ⟫ λ (_, st1) _.
      anything (parse_name is_valid_utf8 st1) ⟫ λ (_, st2) _.
      anything (read_u8 st2) ⟫ λ (kind, st3) _. import_of_kind-Counted _ m st3 c kind

  parse_section_import-Counted :
      (m : Module) (st : Stream)
      → Counted m
      → Post Counted F (parse_section_import is_valid_utf8 m st)
  unfolding parse_section_import
  parse_section_import-Counted m st c = anything (read_vu32 st) ⟫ λ (count, st1) _.
      for_each-Post count (parse_import is_valid_utf8) parse_import-Counted m st1 c ⟫ at_end-Post

  parse_export-Counted :
      (m : Module) (st : Stream) → Counted m → Post (Of Counted) F (parse_export is_valid_utf8 m st)
  unfolding parse_export
  parse_export-Counted m st c = anything (parse_name is_valid_utf8 st) ⟫ λ (_, st1) _.
      anything (read_u8 st1) ⟫ λ (kind, st2) _.
      Post-if (not (is_valid_external_kind kind)) _ _ (λ _. throws)
        (λ _. anything (read_vu32 st2) ⟫ λ (idx, st3) _.
          mark_exported-Counted m st c kind idx ⟫ λ marked k. returns k)

  parse_section_export-Counted :
      (m : Module) (st : Stream)
      → Counted m
      → Post Counted F (parse_section_export is_valid_utf8 m st)
  unfolding parse_section_export
  parse_section_export-Counted m st c = anything (read_vu32 st) ⟫ λ (count, st1) _.
      anything (reserve m.flags.exports_fixed) ⟫ λ _ _.
      for_each-Post count (parse_export is_valid_utf8) parse_export-Counted _ st1 c ⟫ at_end-Post

  parse_section-Counted :
      (id : ℕ) (m : Module) (st : Stream)
      → Counted m
      → Post Counted F (parse_section is_valid_utf8 id m st)
  unfolding parse_section
  parse_section-Counted id m st c =
      search
        (
          Post-if, returns, c, throws, parse_section_type-Counted, parse_section_import-Counted,
          parse_section_function-Counted, parse_section_table-Counted, parse_section_memory-Counted,
          parse_section_global-Counted, parse_section_export-Counted, parse_section_start-Counted,
          parse_section_element-Counted, parse_section_code-Counted, parse_section_data-Counted,
          parse_section_data_count-Counted,
        )
        depth 40

  parse_round-Counted :
      (order_idx : ℕ) (m : Module) (st : Stream)
      → Counted m
      → Post (λ ((_, m'), st'). Counted m') F (parse_round is_valid_utf8 order_idx m st)
  unfolding parse_round
  parse_round-Counted order_idx m st c = anything (read_vu7 st) ⟫ λ (id, st1) _.
      anything (read_vu32 st1) ⟫ λ (payload_len, st2) _.
      anything (advance_order id order_idx) ⟫ λ order_idx' _.
      Post-if (payload_len == 0) _ _ (λ _. returns c)
        (λ _. anything (slice st2 payload_len) ⟫ λ (section_content, st3) _.
          parse_section-Counted id m section_content c ⟫ λ parsed k. returns k)

  parse_sections-Counted :
      (fuel order_idx : ℕ) (m : Module) (st : Stream)
      → Counted m
      → Post Counted F (parse_sections is_valid_utf8 fuel order_idx m st)
  unfolding parse_sections remaining
  parse_sections-Counted zero order_idx m st c = faults tt
  parse_sections-Counted (suc fuel) order_idx m st c = elim (Bool-cases (length st.s - st.p == 0)) [
    | inl done ↦ rw (done, parse_sections) (returns c)
    | inr more ↦
        rw (more, parse_sections)
          (parse_round-Counted order_idx m st c ⟫ λ ((order_idx', parsed), st') k.
            parse_sections-Counted fuel order_idx' parsed st' k)
  ]

  module_init-Counted : (bin : List ℕ) → Post Counted F (module_init is_valid_utf8 bin)
  unfolding module_init parse_module remaining
  module_init-Counted bin =
      Post-if (length bin == 0) _ _ (λ _. throws)
        (λ _. anything (read_u32 (stream_from bin)) ⟫ λ (magic, st1) _.
          Post-if (magic != 0x6d736100) _ _ (λ _. throws)
            (λ _. anything (read_u32 st1) ⟫ λ (version, st2) _.
              Post-if (version != 1) _ _ (λ _. throws) (λ _. parse_sections-Counted _ 0 _ st2 tt)))

-- In a module that `module_init` accepts, a function that is not imported has as many local variables
-- counted as it has parameters and locals, unless their number wraps around.
pub module_init-locals_of :
    (is_valid_utf8 : List ℕ → Bool) (bin : List ℕ) (m : Module) (i : ℕ) (f : Func)
    → module_init is_valid_utf8 bin ≡ ok m
    → get_elem? m.funcs i ≡ some f
    → is_imported f ≡ false
    → locals_of f < 2 ^ 32
    → f.local_count ≡ locals_of f
module_init-locals_of is_valid_utf8 bin m i f e found own fits =
    (All-get_elem IsCounted m.funcs i f (of_ok _ (module_init-Counted is_valid_utf8 bin) e) found).1
      own fits
