-- ===== src/Parser/Locals.antt =====
-- How src/runtime/parser.c counts the local variables of functions.
pub mod Sections
use silverfir.Prelude.{
  ℕ, zero, suc, ◌+◌, ◌-◌, ◌^◌, ◌<◌, ◌≡◌, refl, ap, bit_and, bit_or, arith, Bool, false, not, leb,
  u32, ◌++◌, ◌==◌, ◌!=◌, ◌&&◌, ◌||◌, List, [], ◌∷◌, length, length-append, Option, none, some,
  get_elem?, All, All-append, All-modify, All-get_elem,
}
use silverfir.Result.{Result, ok, err, fault}
use silverfir.Result.Post.{Post, returns, throws, faults, of_ok, Post-if, Post-found, ◌⟫◌}
use silverfir.Format.{TypeId, is_value_type, is_ref}
use silverfir.Stream.{Stream, remaining, stream_from, read_u8, read_u32, read_vi7, read_vu7, slice}
use silverfir.Stream.Leb.{read_vu32}
use silverfir.Module.{
  ImportPath, Func, FuncType, Module, is_imported, linkage_none, linkage_imported,
}
use silverfir.Parser.{for_each, at_end, reserve, parse_limits, parse_name}
use silverfir.Parser.Rules.{Of, for_each-Post, at_end-Post}
use silverfir.Parser.Types.{parse_section_type}
use silverfir.Parser.Imports.{
  import_function, import_table, import_memory, import_global, import_of_kind, parse_import,
  parse_section_import, external_kind_function, external_kind_table, external_kind_memory,
  external_kind_global, u32_max, wasm_mem_max_pages, no_code,
}
use silverfir.Parser.Definitions.{
  parse_function, parse_section_function, parse_section_table, parse_section_memory,
  parse_section_global,
}
use silverfir.Parser.Exports.{
  is_valid_external_kind, mark_exported, parse_export, parse_section_export, parse_section_start,
}
use silverfir.Parser.Elements.{parse_section_element}
use silverfir.Parser.Bodies.{
  replicate, count_group, push_group, parse_body, parse_code, parse_section_code,
}
use silverfir.Parser.Segments.{count_differs, parse_section_data, parse_section_data_count}
use silverfir.Parser.Binary.{
  parse_section, parse_round, parse_sections, parse_module, module_of, module_init,
}

-- The parameters and the locals of a function.
abbrev pub locals_of : Func → ℕ
locals_of f = f.fn_type.param_count + length f.local_types

-- Two flags are the linkage. A function that is not imported has counted its parameters and locals,
-- unless their number wraps around.
abbrev pub IsCounted : Func → Type 0
IsCounted f =
    (f.linkage < 4) × (is_imported f ≡ false → locals_of f < 2 ^ 32 → f.local_count ≡ locals_of f)

abbrev pub Counted : Module → Type 0
Counted m = All IsCounted m.funcs

pub anything : {A : Type 0} (r : Result A) → Post (λ _. Unit {0}) (Unit {0}) r
anything (ok a) = returns tt
anything (err e) = throws
anything fault = faults tt

length-replicate : (n : ℕ) (t : TypeId) → length (replicate n t) ≡ n
unfolding replicate
length-replicate zero t = refl
length-replicate (suc n) t = ap suc (length-replicate n t)

-- The export flag leaves the import flag as it is.
exported-flags :
    (linkage : ℕ)
    → linkage < 4
    → (bit_or linkage 2 < 4) × (bit_and (bit_or linkage 2) 1 ≡ bit_and linkage 1)
exported-flags zero h = (omega arith, refl)
exported-flags (suc zero) h = (omega arith, refl)
exported-flags (suc (suc zero)) h = (omega arith, refl)
exported-flags (suc (suc (suc zero))) h = (omega arith, refl)
exported-flags (suc (suc (suc (suc n)))) h = absurd (omega arith)

abbrev pub F : Type 0
F = Unit {0}

-- Imports.
module _ (path : ImportPath) (m : Module) (st : Stream) (c : Counted m) where
  import_function-Counted : Post (Of Counted) F (import_function path m st)
  unfolding import_function
  import_function-Counted = anything (read_vu32 st) ⟫ λ (typeidx, st1) _.
      Post-found (get_elem? m.func_types typeidx) _ _ (λ _. throws)
        (λ fn_type _. returns (All-append IsCounted m.funcs _ c ((omega arith, λ own _. cc), tt)))

  import_table-Counted : Post (Of Counted) F (import_table path m st)
  unfolding import_table
  import_table-Counted = anything (read_vi7 st) ⟫ λ (valtype, st1) _.
      Post-if (not (is_ref valtype)) _ _ (λ _. throws)
        (λ _. anything (parse_limits st1 u32_max) ⟫ λ _ _. returns c)

  import_memory-Counted : Post (Of Counted) F (import_memory path m st)
  unfolding import_memory
  import_memory-Counted = anything (parse_limits st wasm_mem_max_pages) ⟫ λ _ _. returns c

  import_global-Counted : Post (Of Counted) F (import_global path m st)
  unfolding import_global
  import_global-Counted = anything (read_vi7 st) ⟫ λ (valtype, st1) _.
      Post-if (not (is_value_type valtype)) _ _ (λ _. throws)
        (λ _. anything (read_u8 st1) ⟫ λ (mut, st2) _.
          Post-if (mut != 0 && mut != 1) _ _ (λ _. throws) (λ _. returns c))

  pub import_of_kind-Counted : (kind : ℕ) → Post (Of Counted) F (import_of_kind kind path m st)
  unfolding import_of_kind
  import_of_kind-Counted kind =
      Post-if (kind == external_kind_function) _ _ (λ _. import_function-Counted)
        λ _.
          Post-if (kind == external_kind_table) _ _ (λ _. import_table-Counted)
            λ _.
              Post-if (kind == external_kind_memory) _ _ (λ _. import_memory-Counted)
                λ _.
                  Post-if (kind == external_kind_global) _ _ (λ _. import_global-Counted)
                    λ _. throws

-- Function declarations and exports.
module _ (m : Module) (st : Stream) (c : Counted m) where
  parse_function-IsCounted :
      (types : List FuncType) (funcs : List Func) (at : Stream)
      → All IsCounted funcs
      → Post (Of (All IsCounted)) F (parse_function types funcs at)
  unfolding parse_function
  parse_function-IsCounted types funcs at k = anything (read_vu32 at) ⟫ λ (typeidx, st1) _.
      Post-found (get_elem? types typeidx) _ _ (λ _. throws)
        (λ fn_type _.
          let f = record (no_code fn_type) {
            linkage = linkage_none;
            local_count = fn_type.param_count;
          } in
          returns
            (All-append IsCounted funcs (f ∷ []) k ((omega arith, λ own fits. omega arith), tt)))

  pub parse_section_function-Counted : Post Counted F (parse_section_function m st)
  unfolding parse_section_function
  parse_section_function-Counted = anything (read_vu32 st) ⟫ λ (count, st1) _.
      anything (reserve m.flags.funcs_fixed) ⟫ λ _ _.
      (for_each-Post count (parse_function m.func_types) (parse_function-IsCounted m.func_types)
          m.funcs st1 c
        ⟫ at_end-Post)
      ⟫ λ funcs k. returns k

  pub mark_exported-Counted : (kind idx : ℕ) → Post Counted F (mark_exported kind idx m)
  unfolding mark_exported
  mark_exported-Counted kind idx =
      Post-if (kind == external_kind_function) _ _
        (λ _.
          Post-if (leb (length m.funcs) idx) _ _ (λ _. throws)
            (λ _. returns (
              All-modify IsCounted m.funcs idx _
                (λ f k.
                  let (small, same) = exported-flags f.linkage k.0 in
                  (small, λ own. k.1 (rw same at own)))
                c)))
        λ _.
          Post-if (kind == external_kind_table) _ _
            (λ _. Post-if (leb (length m.tables) idx) _ _ (λ _. throws) (λ _. returns c))
            λ _.
              Post-if (kind == external_kind_memory) _ _
                (λ _. Post-if (leb (length m.memories) idx) _ _ (λ _. throws) (λ _. returns c))
                λ _.
                  Post-if (kind == external_kind_global) _ _
                    (λ _. Post-if (leb (length m.globals) idx) _ _ (λ _. throws) (λ _. returns c))
                    λ _. returns c

  pub parse_section_start-Counted : Post Counted F (parse_section_start m st)
  unfolding parse_section_start
  parse_section_start-Counted = anything (read_vu32 st) ⟫ λ (start_funcidx, st1) _.
      Post-found (get_elem? m.funcs start_funcidx) _ _ (λ _. throws)
        (λ fn _.
          Post-if (fn.fn_type.param_count != 0 || fn.fn_type.result_count != 0) _ _ (λ _. throws)
            (λ _. at_end-Post _ c))

-- Bodies.
push_group-IsCounted :
    (fn : Func) (st : Stream) → IsCounted fn → Post (Of IsCounted) F (push_group fn st)
unfolding push_group
push_group-IsCounted fn st k = anything (read_vu32 st) ⟫ λ (n, st1) _.
    anything (read_vi7 st1) ⟫ λ (valtype, st2) _.
    Post-if (not (is_value_type valtype)) _ _ (λ _. throws)
      (λ _.
        Post-if (n == 0) _ _ (λ _. returns k)
          (λ _. anything (reserve fn.local_types_fixed) ⟫ λ _ _.
            let more = length-append fn.local_types (replicate n valtype) in
            let added = length-replicate n valtype in
            returns (
              k.0,
              λ own fits.
                  let before = k.1 own (omega (arith, more, added, fits)) in
                  omega (arith, more, added, fits, before),
            )))

parse_body-IsCounted :
    (fn : Func) (code : Stream) → IsCounted fn → Post IsCounted F (parse_body fn code)
unfolding parse_body remaining
parse_body-IsCounted fn code k = anything (read_vu32 code) ⟫ λ (count, code1) _.
    anything (for_each count count_group 0 code1) ⟫ λ _ _.
    for_each-Post count push_group push_group-IsCounted fn code1 k ⟫ λ (fn', code2) k'.
    Post-if (length code2.s - code2.p == 0) _ _ (λ _. throws)
      (λ _. anything (reserve fn'.local_types_fixed) ⟫ λ _ _. returns k')

parse_code-IsCounted :
    (imported : ℕ) (x : ℕ × List Func) (st : Stream)
    → All IsCounted (x.1)
    → Post (Of (λ (i, funcs). All IsCounted funcs)) F (parse_code imported x st)
unfolding parse_code
parse_code-IsCounted imported (i, funcs) st k =
    Post-found (get_elem? funcs _) _ _ (λ _. faults tt)
      (λ fn found. anything (read_vu32 st) ⟫ λ (code_size, st1) _.
        anything (slice st1 code_size) ⟫ λ (code, st2) _.
        parse_body-IsCounted fn code (All-get_elem IsCounted funcs _ fn k found) ⟫ λ fn' k'.
        returns (All-modify IsCounted funcs _ _ (λ _ _. k') k))

pub parse_section_code-Counted :
    (m : Module) (st : Stream) → Counted m → Post Counted F (parse_section_code m st)
unfolding parse_section_code
parse_section_code-Counted m st c = anything (read_vu32 st) ⟫ λ (count, st1) _.
    Post-if (u32 (count + m.imported_func_count) != length m.funcs) _ _ (λ _. throws)
      (λ _.
        (for_each-Post {P = λ (i, funcs). All IsCounted funcs} count
            (parse_code m.imported_func_count) (parse_code-IsCounted m.imported_func_count)
            (0, m.funcs) st1 c
          ⟫ at_end-Post)
        ⟫ λ (_, funcs) k. returns k)
