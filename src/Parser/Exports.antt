-- ===== src/Parser/Exports.antt =====
-- `parse_section_export` and `parse_section_start` of src/runtime/parser.c.
use silverfir.Prelude.{
  ℕ, Bool, true, not, ◌||◌, leb, ◌==◌, ◌!=◌, bit_or, if◌then◌else◌, List, ◌∷◌, [], ◌++◌, none, some,
  get_elem?, modify, length, one_of,
}
use silverfir.Result.{Result, ok, err, invalid, ◌>>=◌}
use silverfir.Stream.{Stream, read_u8}
use silverfir.Stream.Leb.{read_vu32}
use silverfir.Module.{Module, Func, Table, Memory, Global, linkage_exported}
use silverfir.Parser.{for_each, at_end, reserve, parse_name}
use silverfir.Parser.Imports.{
  external_kind_function, external_kind_table, external_kind_memory, external_kind_global,
}

unfoldable pub is_valid_external_kind : ℕ → Bool
unfolding one_of
is_valid_external_kind id = one_of id (
    external_kind_function ∷ external_kind_table ∷ external_kind_memory ∷ external_kind_global ∷ [])

-- `vec_at(…, idx)->linkage |= linkage_exported`, in the vector that the kind names.
unfoldable pub mark_exported : ℕ → ℕ → Module → Result Module
mark_exported kind idx mod' =
    if kind == external_kind_function
    then if leb (length mod'.funcs) idx
      then err invalid
      else ok (record mod' {
        funcs =
            modify mod'.funcs idx
              (λ (f : Func). record f { linkage = bit_or (f.linkage) linkage_exported });
      })
    else if kind == external_kind_table
    then if leb (length mod'.tables) idx
      then err invalid
      else ok (record mod' {
        tables =
            modify mod'.tables idx
              (λ (t : Table). record t { linkage = bit_or (t.linkage) linkage_exported });
      })
    else if kind == external_kind_memory
    then if leb (length mod'.memories) idx
      then err invalid
      else ok (record mod' {
        memories =
            modify mod'.memories idx
              (λ (m : Memory). record m { linkage = bit_or (m.linkage) linkage_exported });
      })
    else if kind == external_kind_global
    then if leb (length mod'.globals) idx
      then err invalid
      else ok (record mod' {
        globals =
            modify mod'.globals idx
              (λ (g : Global). record g { linkage = bit_or (g.linkage) linkage_exported });
      })
    else ok mod'

module _ (is_valid_utf8 : List ℕ → Bool) where
  unfoldable pub parse_export : Module → Stream → Result (Module × Stream)
  parse_export mod' st = do
    (name, st1) ← parse_name is_valid_utf8 st
    (external_kind, st2) ← read_u8 st1
    if not (is_valid_external_kind external_kind) then err invalid else do
      (idx, st3) ← read_vu32 st2
      marked ← mark_exported external_kind idx mod'
      ok (
        record marked {
          exports =
              marked.exports
              ++ (record { name = name; external_kind = external_kind; external_idx = idx } ∷ []);
        },
        st3,
      )

  unfoldable pub parse_section_export : Module → Stream → Result Module
  parse_section_export mod' st = do
    (count, st1) ← read_vu32 st
    _ ← reserve mod'.flags.exports_fixed
    for_each count parse_export
          (record mod' { flags = record (mod'.flags) { exports_fixed = true } }) st1
        >>= at_end

unfoldable pub parse_section_start : Module → Stream → Result Module
parse_section_start mod' st = do
  (start_funcidx, st1) ← read_vu32 st
  elim (get_elem? mod'.funcs start_funcidx) [
    | none ↦ err invalid
    | some start_fn ↦
        if start_fn.fn_type.param_count != 0 || start_fn.fn_type.result_count != 0
        then err invalid
        else at_end (record mod' { start_funcidx = some start_funcidx }, st1)
  ]
