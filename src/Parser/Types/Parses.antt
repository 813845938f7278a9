-- ===== src/Parser/Types/Parses.antt =====
-- The type section of src/runtime/parser.c keeps the bytes of its types only where `parse_types`
-- reads value types from them.
use silverfir.Prelude.{
  ℕ, zero, suc, ◌+◌, ◌≤◌, ◌<◌, ◌≡◌, refl, ap, ◌∙◌, true, false, arith, ltb, leb, ◌!=◌, bit_and,
  bit_or, List, [], ◌∷◌, length, drop, take, length-drop, drop-get_or, get_or, if◌then◌else◌, All,
  All-append, Bool-cases, inl, inr,
}
use native.Mathlib.Decide.{dec_lt}
use silverfir.Result.{ok, err, malformed}
use silverfir.Result.Post.{Post, returns, throws, Post-if, ◌⟫◌, weaken}
use silverfir.Format.{TypeId, is_value_type}
use silverfir.Stream.{Stream, remaining, byte, advance, read_vi7, stream_from}
use silverfir.Stream.Moves.{read_vu7-Post, read_vu32-Post}
use silverfir.Module.{FuncType, Module, parse_types_loop, parse_types}
use silverfir.Parser.{for_each}
use silverfir.Parser.Types.{
  result_type_count_max, check_value_type, parse_result_types, parse_func_type, parse_section_type,
}
use silverfir.Parser.Rules.{Of, for_each-Post, at_end-Post, reserve-Post}
use silverfir.Parser.WellFormed.{Parses, HasTypes, IsWellFormed}

-- The type that a byte encodes.
abbrev type_of_byte : ℕ → TypeId
type_of_byte b = if bit_and b 0x40 != 0 then bit_or b 0x80 else b

read_vi7-at :
    (st : Stream) (b : ℕ) (bs : List ℕ)
    → drop st.p st.s ≡ b ∷ bs
    → read_vi7 st ≡ (if leb 0x80 b then err malformed else ok (type_of_byte b, advance st 1))
unfolding read_vi7 remaining byte
read_vi7-at st b bs e =
    let some_left : st.p < length st.s = omega (arith, length-drop st.p st.s, ap length e) in
    let head : get_or st.s st.p 0 ≡ b = cc (drop-get_or st.p st.s 0 some_left) in
    let q : st.p + 0 ≡ st.p = omega arith in rw (q, head) (ground (arith))

read_vi7_none : (st : Stream) → length st.s ≤ st.p → read_vi7 st ≡ err malformed
unfolding read_vi7 remaining byte
read_vi7_none st h = ground arith

-- What the check has seen: the byte of a value type.
record Checked (st st' : Stream) : Type 0 where
  b : ℕ
  bs : List ℕ
  here : drop st.p st.s ≡ b ∷ bs
  short : leb 0x80 b ≡ false
  valued : is_value_type (type_of_byte b) ≡ true
  behind : drop st'.p st'.s ≡ bs

module _ {F : Type 0} where
  check_value_type-Checked :
      (st : Stream) → Post (λ (_, st'). Checked st st') F (check_value_type tt st)
  unfolding check_value_type
  check_value_type-Checked st = elim (dec_lt st.p (length st.s)) [
    | no past ↦ rw (read_vi7_none st (omega (arith, past))) throws
    | yes inside ↦
        let b = get_or st.s st.p 0 in
        let bs = drop (suc st.p) st.s in
        let e = drop-get_or st.p st.s 0 inside in
        let next : st.p + 1 ≡ suc st.p = omega arith in
        rw (read_vi7-at st b bs e) (elim (Bool-cases (leb 0x80 b)) [
          | inl long ↦ rw long throws
          | inr short ↦ rw short (
              Post-if (is_value_type (type_of_byte b)) _ _
                (λ valued. returns (record {
                  b = b;
                  bs = bs;
                  here = e;
                  short = short;
                  valued = valued;
                  behind = ap (λ (n : ℕ). drop n st.s) next;
                }))
                (λ _. throws))
        ])
  ]

-- The copy of the bytes reads as the original does.
parse_types_loop-Checked :
    (n : ℕ) (st st' copy : Stream)
    → Checked st st'
    → drop copy.p copy.s ≡ take (suc n) (drop st.p st.s)
    → ((after : Stream)
        → drop after.p after.s ≡ take n (drop st'.p st'.s)
        → (ts : List TypeId) × (parse_types_loop n after ≡ ok ts))
    → (ts : List TypeId) × (parse_types_loop (suc n) copy ≡ ok ts)
unfolding parse_types_loop
parse_types_loop-Checked n st st' copy c e rest =
    let first : drop copy.p copy.s ≡ c.b ∷ take n c.bs = rw (c.here) at e in
    let some_left : copy.p < length copy.s =
      omega (arith, length-drop copy.p copy.s, ap length first) in
    let tail : drop (suc copy.p) copy.s ≡ take n c.bs =
      cc (drop-get_or copy.p copy.s 0 some_left) in
    let next : copy.p + 1 ≡ suc copy.p = omega arith in
    let (ts, r) = rest (advance copy 1) (rw (next, c.behind) tail) in
    (
      type_of_byte c.b ∷ ts,
      rw (read_vi7-at copy c.b (take n c.bs) first, c.short, c.valued, r) refl,
    )

parse_types-loop :
    (n : ℕ) (bytes : List ℕ) → parse_types n bytes ≡ parse_types_loop n (stream_from bytes)
unfolding parse_types parse_types_loop
parse_types-loop zero bytes = refl
parse_types-loop (suc n) bytes = refl

module _ {F : Type 0} where
  for_each-parse_types_loop :
      (n : ℕ) (st : Stream)
      → Post
          (λ _.
            (copy : Stream)
            → drop copy.p copy.s ≡ take n (drop st.p st.s)
            → (ts : List TypeId) × (parse_types_loop n copy ≡ ok ts))
          F
          (for_each n check_value_type tt st)
  unfolding for_each parse_types_loop
  for_each-parse_types_loop zero st = returns (λ copy e. ([], refl))
  for_each-parse_types_loop (suc n) st = check_value_type-Checked st ⟫ λ (_, st') c.
      weaken (λ _ rest copy e. parse_types_loop-Checked n st st' copy c e rest)
        (for_each-parse_types_loop n st')

  pub parse_result_types-Parses :
      (st : Stream) → Post (λ ((count, bytes), _). Parses count bytes) F (parse_result_types st)
  unfolding parse_result_types stream_from
  parse_result_types-Parses st = read_vu32-Post st ⟫ λ (count, st1) _.
      Post-if (ltb result_type_count_max count) _ _ (λ _. throws)
        (λ few. for_each-parse_types_loop count st1 ⟫ λ _ h.
          let bytes = take count (drop st1.p st1.s) in
          let (ts, e) = h (stream_from bytes) refl in
          returns (ground arith, ts, parse_types-loop count bytes ∙ e))

  parse_func_type-HasTypes :
      (types : List FuncType) (st : Stream)
      → All HasTypes types
      → Post (Of (All HasTypes)) F (parse_func_type types st)
  unfolding parse_func_type
  parse_func_type-HasTypes types st h = read_vu7-Post st ⟫ λ (form, st1) _.
      Post-if (form != 0x60) _ _ (λ _. throws)
        (λ _. parse_result_types-Parses st1 ⟫ λ ((param_count, params), st2) p.
          parse_result_types-Parses st2 ⟫ λ ((result_count, results), st3) r.
          returns (All-append HasTypes types _ h (record { params = p; results = r }, tt)))

  pub parse_section_type-IsWellFormed :
      (m : Module) (st : Stream) → IsWellFormed m → Post IsWellFormed F (parse_section_type m st)
  unfolding parse_section_type
  parse_section_type-IsWellFormed m st w = read_vu32-Post st ⟫ λ (count, st1) _.
      reserve-Post m.flags.func_types_fixed ⟫ λ _ _.
      (for_each-Post count parse_func_type parse_func_type-HasTypes m.func_types st1 w.func_types
        ⟫ at_end-Post)
      ⟫ λ types h. returns (ground arith)
