-- ===== src/Parser/WellFormed/Elements.antt =====
-- The element section of src/runtime/parser.c keeps a module well formed.
use silverfir.Prelude.{
  ℕ, zero, suc, ◌-◌, ◌<◌, ◌≡◌, refl, true, not, ltb, leb, ◌==◌, ◌!=◌, bit_and, arith, List, [], ◌∷◌,
  length, take, All, All-append,
}
use silverfir.Result.Post.{Post, returns, throws, Post-if, ◌⟫◌, weaken}
use silverfir.Format.{is_ref, type_id_funcref}
use silverfir.Stream.{Stream}
use silverfir.Stream.Moves.{read_u8-Post, read_vu32-Post, read_vi7-Post}
use silverfir.Module.{Module, Element, VecFlags}
use silverfir.Parser.Elements.{
  elem_kind_passive, elem_kind_table_idx, elem_kind_expr, elem_kind_max, zero_elements,
  resize_elements, parse_tableidx, parse_offset, parse_elem_type, parse_expr, parse_funcidx,
  parse_vector, parse_element, parse_elements, parse_section_element,
}
use silverfir.Parser.Rules.{
  Of, Any, for_each-Post, at_end-Post, reserve-Post, parse_const_expr-Post,
}
use silverfir.Parser.WellFormed.{IsElement, IsWellFormed}

-- What the loop finds in an element: indices of an earlier section, or none.
abbrev Indexed : ℕ → Element → Type 0
Indexed funcs e = All (λ i. i < funcs) e.v_funcidx

zero_elements-Indexed : (funcs n : ℕ) → All (Indexed funcs) (zero_elements n)
unfolding zero_elements
zero_elements-Indexed funcs zero = tt
zero_elements-Indexed funcs (suc n) = (tt, zero_elements-Indexed funcs n)

take-Indexed :
    (funcs n : ℕ) (es : List Element) → All (IsElement funcs) es → All (Indexed funcs) (take n es)
take-Indexed funcs zero es a = tt
take-Indexed funcs (suc n) [] a = tt
take-Indexed funcs (suc n) (e ∷ es) a = (a.0.1, take-Indexed funcs n es a.1)

All-Indexed : (funcs : ℕ) (es : List Element) → All (IsElement funcs) es → All (Indexed funcs) es
All-Indexed funcs [] a = tt
All-Indexed funcs (e ∷ es) a = (a.0.1, All-Indexed funcs es a.1)

with_elements :
    {m : Module} (elements : List Element) (flags : VecFlags)
    → IsWellFormed m
    → All (IsElement (length m.funcs)) elements
    → IsWellFormed (record m { elements = elements; flags = flags })
with_elements elements flags w h = ground arith

funcref-is_ref : is_ref type_id_funcref ≡ true
unfolding is_ref
funcref-is_ref = refl

module _ {F : Type 0} where
  resize_elements-Indexed :
      (count : ℕ) (m : Module)
      → IsWellFormed m
      → Post (λ (_, es). All (Indexed (length m.funcs)) es) F (resize_elements count m)
  unfolding resize_elements
  resize_elements-Indexed count m w =
      let n = length m.funcs in
      let grown =
        All-append (Indexed n) m.elements (zero_elements (count - length m.elements))
          (All-Indexed n m.elements w.elements)
          (zero_elements-Indexed n (count - length m.elements)) in
      Post-if (leb count (length m.elements)) _ _
        (λ _. returns (take-Indexed n count m.elements w.elements))
        (λ _.
          Post-if (ltb m.flags.elements_capacity count) _ _
            (λ _. reserve-Post m.flags.elements_fixed ⟫ λ _ _. returns grown) (λ _. returns grown))

  parse_tableidx-Post : (kind : ℕ) (st : Stream) → Post (Of Any) F (parse_tableidx kind st)
  unfolding parse_tableidx
  parse_tableidx-Post kind st =
      Post-if (bit_and kind 3 == elem_kind_table_idx) _ _
        (λ _. weaken (λ _ _. tt) (read_vu32-Post st)) (λ _. returns tt)

  parse_offset-Post :
      (kind : ℕ) (old : List ℕ) (st : Stream) → Post (Of Any) F (parse_offset kind old st)
  unfolding parse_offset
  parse_offset-Post kind old st =
      Post-if (bit_and kind elem_kind_passive == 0) _ _ (λ _. parse_const_expr-Post st)
        (λ _. returns tt)

  parse_elem_type-Post :
      (kind : ℕ) (st : Stream) → Post (Of (λ t. is_ref t ≡ true)) F (parse_elem_type kind st)
  unfolding parse_elem_type
  parse_elem_type-Post kind st =
      Post-if (bit_and kind 3 == 0) _ _ (λ _. returns funcref-is_ref)
        (λ _.
          Post-if (bit_and kind elem_kind_expr != 0) _ _
            (λ _. read_vi7-Post st ⟫ λ (type, st') _.
              Post-if (not (is_ref type)) _ _ (λ _. throws) (λ e. returns (ground arith)))
            (λ _. read_u8-Post st ⟫ λ (external_kind, st') _.
              Post-if (external_kind != 0) _ _ (λ _. throws) (λ _. returns funcref-is_ref)))

  parse_expr-Post :
      (exprs : List (List ℕ)) (st : Stream) → Any exprs → Post (Of Any) F (parse_expr exprs st)
  unfolding parse_expr
  parse_expr-Post exprs st _ = parse_const_expr-Post st ⟫ λ (expr, st') _. returns tt

  parse_funcidx-Post :
      (funcs : ℕ) (indices : List ℕ) (st : Stream)
      → All (λ i. i < funcs) indices
      → Post (Of (All (λ i. i < funcs))) F (parse_funcidx funcs indices st)
  unfolding parse_funcidx
  parse_funcidx-Post funcs indices st h = read_vu32-Post st ⟫ λ (funcidx, st') _.
      Post-if (leb funcs funcidx) _ _ (λ _. throws)
        (λ e. returns (All-append (λ i. i < funcs) indices (funcidx ∷ []) h (ground arith, tt)))

  parse_vector-IsElement :
      (funcs kind idx_count : ℕ) (elem : Element) (st : Stream)
      → IsElement funcs elem
      → Post (Of (IsElement funcs)) F (parse_vector funcs kind idx_count elem st)
  unfolding parse_vector
  parse_vector-IsElement funcs kind idx_count elem st (r, a) =
      Post-if (bit_and kind elem_kind_expr != 0) _ _
        (λ _. reserve-Post elem.v_expr_fixed ⟫ λ _ _.
          for_each-Post idx_count parse_expr parse_expr-Post elem.v_expr st tt ⟫ λ (exprs, st') _.
          returns (r, a))
        (λ _. reserve-Post elem.v_funcidx_fixed ⟫ λ _ _.
          for_each-Post idx_count (parse_funcidx funcs) (parse_funcidx-Post funcs) elem.v_funcidx st
            a
          ⟫ λ (indices, st') b. returns (r, b))

  parse_element-IsElement :
      (funcs : ℕ) (elem : Element) (st : Stream)
      → Indexed funcs elem
      → Post (Of (IsElement funcs)) F (parse_element funcs elem st)
  unfolding parse_element
  parse_element-IsElement funcs elem st a = read_u8-Post st ⟫ λ (kind, st1) _.
      Post-if (ltb elem_kind_max kind) _ _ (λ _. throws)
        (λ _. parse_tableidx-Post kind st1 ⟫ λ (tableidx, st2) _.
          parse_offset-Post kind elem.offset_expr st2 ⟫ λ (offset_expr, st3) _.
          parse_elem_type-Post kind st3 ⟫ λ (valtype, st4) r.
          read_vu32-Post st4 ⟫ λ (idx_count, st5) _.
          parse_vector-IsElement funcs kind idx_count _ st5 (r, a))

  parse_elements-IsElement :
      (funcs : ℕ) (es : List Element) (st : Stream)
      → All (Indexed funcs) es
      → Post (Of (All (IsElement funcs))) F (parse_elements funcs es st)
  unfolding parse_elements
  parse_elements-IsElement funcs [] st a = returns tt
  parse_elements-IsElement funcs (elem ∷ elems) st a =
      parse_element-IsElement funcs elem st a.0 ⟫ λ (elem', st1) h.
      parse_elements-IsElement funcs elems st1 a.1 ⟫ λ (elems', st2) k. returns (h, k)

  pub parse_section_element-IsWellFormed :
      (m : Module) (st : Stream) → IsWellFormed m → Post IsWellFormed F (parse_section_element m st)
  unfolding parse_section_element
  parse_section_element-IsWellFormed m st w = read_vu32-Post st ⟫ λ (count, st1) _.
      resize_elements-Indexed count m w ⟫ λ (capacity, elems) a.
      (parse_elements-IsElement (length m.funcs) elems st1 a ⟫ at_end-Post) ⟫ λ elements h.
      returns (with_elements elements _ w h)
