-- ===== src/Parser/WellFormed/Exports.antt =====
-- The sections of exports and of the start function of src/runtime/parser.c keep a module well formed.
use silverfir.Prelude.{
  ℕ, Bool, ◌≡◌, refl, true, not, ◌||◌, leb, ◌==◌, ◌!=◌, bit_or, arith, List, length, some, Option,
  get_elem?, All-modify, length-modify,
}
use silverfir.Result.Post.{Post, returns, throws, Post-if, Post-found, ◌⟫◌}
use silverfir.Stream.{Stream}
use silverfir.Stream.Moves.{read_u8-Post, read_vu32-Post}
use silverfir.Module.{Module, Func, Table, Memory, Global, Export, linkage_exported}
use silverfir.Parser.Imports.{
  external_kind_function, external_kind_table, external_kind_memory, external_kind_global,
}
use silverfir.Parser.Exports.{
  is_valid_external_kind, mark_exported, parse_export, parse_section_export, parse_section_start,
}
use silverfir.Parser.Rules.{Of, for_each-Post, at_end-Post, reserve-Post, parse_name-Post}
use silverfir.Parser.WellFormed.{
  IsTable, IsMemory, IsGlobal, of_function, of_table, of_memory, of_global, ExportedFrom, types_of,
  IsStart, IsWellFormed,
}
use silverfir.Parser.WellFormed.Growth.{
  type_at, with_flags, with_funcs, with_tables, with_memories, with_globals, add_export,
  types_of-change,
}

-- What an export may name once its target is marked.
abbrev Marked : ℕ → ℕ → Module → Type 0
Marked kind idx m =
    IsWellFormed m
    × ((e : Export) → e.external_kind ≡ kind → e.external_idx ≡ idx → ExportedFrom m e)

module _ {F : Type 0} (m : Module) (w : IsWellFormed m) where
  mark_exported-Marked :
      (kind idx : ℕ)
      → is_valid_external_kind kind ≡ true
      → Post (Marked kind idx) F (mark_exported kind idx m)
  unfolding mark_exported is_valid_external_kind
  mark_exported-Marked kind idx valid =
      Post-if (kind == external_kind_function) _ _
        (λ k.
          Post-if (leb (length m.funcs) idx) _ _ (λ _. throws)
            (λ h.
              let mark = λ (f : Func). record f { linkage = bit_or (f.linkage) linkage_exported } in
              let n = length-modify m.funcs idx mark in
              returns (
                with_funcs w _ (types_of-change mark (λ f. refl) m.funcs idx),
                λ e ek ei. of_function (ground arith) (ground (arith)),
              )))
        (λ k1.
          Post-if (kind == external_kind_table) _ _
            (λ here.
              Post-if (leb (length m.tables) idx) _ _ (λ _. throws)
                (λ h.
                  let mark =
                    λ (t : Table). record t { linkage = bit_or (t.linkage) linkage_exported } in
                  let n = length-modify m.tables idx mark in
                  returns (
                    with_tables w _ (All-modify IsTable m.tables idx mark (λ x k. k) w.tables) n,
                    λ e ek ei. of_table (ground arith) (ground arith),
                  )))
            (λ k2.
              Post-if (kind == external_kind_memory) _ _
                (λ here.
                  Post-if (leb (length m.memories) idx) _ _ (λ _. throws)
                    (λ h.
                      let mark = λ (mem : Memory). record mem {
                        linkage = bit_or (mem.linkage) linkage_exported;
                      } in
                      let n = length-modify m.memories idx mark in
                      returns (
                        with_memories w _
                            (All-modify IsMemory m.memories idx mark (λ x k. k) w.memories) n,
                        λ e ek ei. of_memory (ground arith) (ground arith),
                      )))
                (λ k3.
                  Post-if (kind == external_kind_global) _ _
                    (λ here.
                      Post-if (leb (length m.globals) idx) _ _ (λ _. throws)
                        (λ h.
                          let mark = λ (g : Global). record g {
                            linkage = bit_or (g.linkage) linkage_exported;
                          } in
                          let n = length-modify m.globals idx mark in
                          returns (
                            with_globals w _
                                (All-modify IsGlobal m.globals idx mark (λ x k. k) w.globals) n,
                            λ e ek ei. of_global (ground arith) (ground arith),
                          )))
                    (λ k4. absurd (ground arith)))))

module _ {F : Type 0} (is_valid_utf8 : List ℕ → Bool) where
  parse_export-Kept :
      (m : Module) (st : Stream)
      → IsWellFormed m
      → Post (Of IsWellFormed) F (parse_export is_valid_utf8 m st)
  unfolding parse_export
  parse_export-Kept m st w = parse_name-Post is_valid_utf8 st ⟫ λ (name, st1) _.
      read_u8-Post st1 ⟫ λ (external_kind, st2) _.
      Post-if (not (is_valid_external_kind external_kind)) _ _ (λ _. throws)
        (λ valid. read_vu32-Post st2 ⟫ λ (idx, st3) _.
          mark_exported-Marked m w external_kind idx (ground arith) ⟫ λ marked (v, named).
          returns (add_export v _ (named _ refl refl)))

  pub parse_section_export-IsWellFormed :
      (m : Module) (st : Stream)
      → IsWellFormed m
      → Post IsWellFormed F (parse_section_export is_valid_utf8 m st)
  unfolding parse_section_export
  parse_section_export-IsWellFormed m st w = read_vu32-Post st ⟫ λ (count, st1) _.
      reserve-Post m.flags.exports_fixed ⟫ λ _ _.
      for_each-Post count (parse_export is_valid_utf8) parse_export-Kept _ st1 (with_flags w _)
      ⟫ at_end-Post

with_start :
    {m : Module} (o : Option ℕ)
    → IsWellFormed m
    → IsStart (types_of m.funcs) o
    → IsWellFormed (record m { start_funcidx = o })
with_start o w s = ground arith

module _ {F : Type 0} where
  pub parse_section_start-IsWellFormed :
      (m : Module) (st : Stream) → IsWellFormed m → Post IsWellFormed F (parse_section_start m st)
  unfolding parse_section_start
  parse_section_start-IsWellFormed m st w = read_vu32-Post st ⟫ λ (start_funcidx, st1) _.
      Post-found (get_elem? m.funcs start_funcidx) _ _ (λ _. throws)
        (λ start_fn e.
          Post-if (start_fn.fn_type.param_count != 0 || start_fn.fn_type.result_count != 0) _ _
            (λ _. throws)
            (λ empty.
              let s : IsStart (types_of m.funcs) (some start_funcidx) = (
                start_fn.fn_type,
                type_at m.funcs start_funcidx start_fn e,
                ground arith,
                ground arith,
              ) in
              at_end-Post _ (with_start (some start_funcidx) w s)))
