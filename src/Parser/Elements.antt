-- ===== src/Parser/Elements.antt =====
-- `parse_section_element` of src/runtime/parser.c. The bits of the kind are those of
-- src/common/wasm_format.h.
use silverfir.Prelude.{
  ℕ, zero, suc, true, false, not, ◌-◌, ltb, leb, ◌==◌, ◌!=◌, bit_and, if◌then◌else◌, List, [], ◌∷◌,
  ◌++◌, length, take,
}
use silverfir.Result.{Result, ok, err, malformed, invalid, ◌>>=◌}
use silverfir.Stream.{Stream, read_u8, read_vi7}
use silverfir.Stream.Leb.{read_vu32}
use silverfir.Format.{TypeId, is_ref, type_id_funcref}
use silverfir.Module.{
  Module, Element, ElemMode, elem_mode_none, elem_mode_active, elem_mode_passive,
  elem_mode_declarative,
}
use silverfir.Parser.{for_each, at_end, reserve, parse_const_expr}

abbrev pub elem_kind_passive : ℕ
elem_kind_passive = 1

abbrev pub elem_kind_table_idx : ℕ
elem_kind_table_idx = 2

abbrev pub elem_kind_declarative : ℕ
elem_kind_declarative = 3

abbrev pub elem_kind_expr : ℕ
elem_kind_expr = 4

abbrev pub elem_kind_max : ℕ
elem_kind_max = 7

-- What `memset` leaves.
abbrev pub zero_element : Element
zero_element = record {
  mode = elem_mode_none;
  tableidx = 0;
  offset_expr = [];
  valtype = 0;
  data_len = 0;
  v_funcidx = [];
  v_funcidx_fixed = false;
  v_expr = [];
  v_expr_fixed = false;
}

unfoldable pub zero_elements : ℕ → List Element
zero_elements zero = []
zero_elements (suc n) = zero_element ∷ zero_elements n

-- `vec_resize(&mod->elements, count)`: the capacity and the elements.
unfoldable pub resize_elements : ℕ → Module → Result (ℕ × List Element)
resize_elements count mod' =
    let capacity = mod'.flags.elements_capacity in
    let grown = mod'.elements ++ zero_elements (count - length mod'.elements) in
    if leb count (length mod'.elements)
    then ok (capacity, take count mod'.elements)
    else if ltb capacity count
    then (do _ ← reserve mod'.flags.elements_fixed; ok (count, grown))
    else ok (capacity, grown)

unfoldable pub mode_of : ℕ → ElemMode
mode_of kind =
    if bit_and kind elem_kind_passive == 0
    then elem_mode_active
    else if bit_and kind elem_kind_declarative == elem_kind_declarative
    then elem_mode_declarative
    else elem_mode_passive

-- The table's index, which an active segment may have.
unfoldable pub parse_tableidx : ℕ → Stream → Result (ℕ × Stream)
parse_tableidx kind st = if bit_and kind 3 == elem_kind_table_idx then read_vu32 st else ok (0, st)

unfoldable pub parse_offset : ℕ → List ℕ → Stream → Result (List ℕ × Stream)
parse_offset kind old st =
    if bit_and kind elem_kind_passive == 0 then parse_const_expr st else ok (old, st)

unfoldable pub parse_elem_type : ℕ → Stream → Result (TypeId × Stream)
parse_elem_type kind st =
    if bit_and kind 3 == 0
    then ok (type_id_funcref, st)
    else if bit_and kind elem_kind_expr != 0
    then (do (type, st') ← read_vi7 st; if not (is_ref type) then err malformed else ok (type, st'))
    else do
      (external_kind, st') ← read_u8 st
      if external_kind != 0 then err invalid else ok (type_id_funcref, st')

unfoldable pub parse_expr : List (List ℕ) → Stream → Result (List (List ℕ) × Stream)
parse_expr exprs st = do (expr, st') ← parse_const_expr st; ok (exprs ++ (expr ∷ []), st')

unfoldable pub parse_funcidx : ℕ → List ℕ → Stream → Result (List ℕ × Stream)
parse_funcidx func_count indices st = do
  (funcidx, st') ← read_vu32 st
  if leb func_count funcidx then err invalid else ok (indices ++ (funcidx ∷ []), st')

-- The vector behind the header, of expressions or of function indices.
unfoldable pub parse_vector : ℕ → ℕ → ℕ → Element → Stream → Result (Element × Stream)
parse_vector func_count kind idx_count elem st =
    if bit_and kind elem_kind_expr != 0
    then (do
      _ ← reserve elem.v_expr_fixed
      (exprs, st') ← for_each idx_count parse_expr elem.v_expr st
      ok (record elem { v_expr = exprs; v_expr_fixed = true }, st'))
    else do
      _ ← reserve elem.v_funcidx_fixed
      (indices, st') ← for_each idx_count (parse_funcidx func_count) elem.v_funcidx st
      ok (record elem { v_funcidx = indices; v_funcidx_fixed = true }, st')

unfoldable pub parse_element : ℕ → Element → Stream → Result (Element × Stream)
parse_element func_count elem st = do
  (kind, st1) ← read_u8 st
  if ltb elem_kind_max kind then err malformed else do
    (tableidx, st2) ← parse_tableidx kind st1
    (offset_expr, st3) ← parse_offset kind elem.offset_expr st2
    (valtype, st4) ← parse_elem_type kind st3
    (idx_count, st5) ← read_vu32 st4
    parse_vector func_count kind idx_count
        (record elem {
          mode = mode_of kind;
          tableidx = tableidx;
          offset_expr = offset_expr;
          valtype = valtype;
          data_len = idx_count;
        })
        st5

-- VEC_FOR_EACH over the elements.
unfoldable pub parse_elements : ℕ → List Element → Stream → Result (List Element × Stream)
parse_elements func_count [] st = ok ([], st)
parse_elements func_count (elem ∷ elems) st = do
  (elem', st1) ← parse_element func_count elem st
  (elems', st2) ← parse_elements func_count elems st1
  ok (elem' ∷ elems', st2)

unfoldable pub parse_section_element : Module → Stream → Result Module
parse_section_element mod' st = do
  (count, st1) ← read_vu32 st
  (capacity, elems) ← resize_elements count mod'
  elements ← (parse_elements (length mod'.funcs) elems st1 >>= at_end)
  ok (record mod' {
    elements = elements;
    flags = record (mod'.flags) { elements_fixed = true; elements_capacity = capacity };
  })
