-- ===== src/Parser/WellFormed/Bodies.antt =====
-- The code section of src/runtime/parser.c keeps a module well formed, and finds a function for every
-- body: the comment in the source that the size has been checked, as a theorem.
use silverfir.Prelude.{
  ℕ, zero, suc, ◌+◌, ◌-◌, ◌^◌, ◌<◌, ◌≡◌, refl, ap, ◌∙◌, not, ltb, ◌==◌, ◌!=◌, arith, List, length,
  get_elem?, u32, get_elem-ne-none,
}
use silverfir.Result.{Result}
use silverfir.Result.Post.{Post, returns, throws, Post-if, Post-found, ◌⟫◌}
use silverfir.Format.{is_value_type}
use silverfir.Stream.{Stream, remaining}
use silverfir.Stream.Moves.{read_vu32-Post, read_vi7-Post}
use silverfir.Module.{Module, Func, FuncType}
use silverfir.Parser.{for_each}
use silverfir.Parser.Imports.{u32_max}
use silverfir.Parser.Bodies.{count_group, push_group, parse_body, parse_code, parse_section_code}
use silverfir.Parser.Rules.{
  Of, Any, for_each-Post, at_end-Post, reserve-Post, slice-Post, read_vu32-Fits,
}
use silverfir.Parser.WellFormed.{types_of, IsWellFormed}
use silverfir.Parser.WellFormed.Growth.{with_funcs, types_of-modify, length-types_of}

-- A loop whose invariant counts the rounds that are left.
for_each-left :
    {A : Type 0} {F : Type 0} (P : ℕ → A → Type 0) (count : ℕ)
    (round : A → Stream → Result (A × Stream))
    → ((left : ℕ) (a : A) (st : Stream) → P (suc left) a → Post (Of (P left)) F (round a st))
    → (a : A) (st : Stream) → P count a
    → Post (Of (P 0)) F (for_each count round a st)
unfolding for_each
for_each-left P zero round keep a st p = returns p
for_each-left P (suc count) round keep a st p =
    keep count a st p ⟫ λ (a', st') p'. for_each-left P count round keep a' st' p'

module _ {F : Type 0} where
  count_group-Post : (total : ℕ) (st : Stream) → Any total → Post (Of Any) F (count_group total st)
  unfolding count_group
  count_group-Post total st _ = read_vu32-Post st ⟫ λ (local_count, st1) _.
      read_vi7-Post st1 ⟫ λ (_, st2) _.
      Post-if (ltb u32_max (total + local_count)) _ _ (λ _. throws) (λ _. returns tt)

  push_group-Post :
      (ft : FuncType) (fn : Func) (st : Stream)
      → fn.fn_type ≡ ft
      → Post (Of (λ f. f.fn_type ≡ ft)) F (push_group fn st)
  unfolding push_group
  push_group-Post ft fn st e = read_vu32-Post st ⟫ λ (local_count, st1) _.
      read_vi7-Post st1 ⟫ λ (valtype, st2) _.
      Post-if (not (is_value_type valtype)) _ _ (λ _. throws)
        (λ _.
          Post-if (local_count == 0) _ _ (λ _. returns e)
            (λ _. reserve-Post fn.local_types_fixed ⟫ λ _ _. returns e))

  -- A body leaves the function's type alone.
  parse_body-Post :
      (fn : Func) (code : Stream) → Post (λ f. f.fn_type ≡ fn.fn_type) F (parse_body fn code)
  unfolding parse_body remaining
  parse_body-Post fn code = read_vu32-Post code ⟫ λ (count, code1) _.
      for_each-Post count count_group count_group-Post 0 code1 tt ⟫ λ _ _.
      for_each-Post count push_group (push_group-Post fn.fn_type) fn code1 refl ⟫ λ (fn', code2) e.
      Post-if (length code2.s - code2.p == 0) _ _ (λ _. throws)
        (λ _. reserve-Post fn'.local_types_fixed ⟫ λ _ _. returns e)

module _ (m : Module) where
  -- With so many bodies left, the functions keep their types, and those left have a place.
  abbrev Progress : ℕ → ℕ × List Func → Type 0
  Progress left (i, funcs) =
      (types_of funcs ≡ types_of m.funcs)
      × (m.imported_func_count + i + left ≡ length m.funcs)
      × (length m.funcs < 2 ^ 32)

  same_length :
      (funcs : List Func) → types_of funcs ≡ types_of m.funcs → length funcs ≡ length m.funcs
  same_length funcs e = omega (arith, ap length e, length-types_of funcs, length-types_of m.funcs)

module _ {F : Type 0} (m : Module) where
  parse_code-Progress :
      (left : ℕ) (x : ℕ × List Func) (st : Stream)
      → Progress m (suc left) x
      → Post (Of (Progress m left)) F (parse_code m.imported_func_count x st)
  unfolding parse_code
  parse_code-Progress left (i, funcs) st (e, n, small) =
      let idx = u32 (m.imported_func_count + i) in
      Post-found (get_elem? funcs idx) _ _
        (λ missing.
          absurd (get_elem-ne-none funcs idx (omega (arith, same_length m funcs e)) missing))
        (λ fn found. read_vu32-Post st ⟫ λ (code_size, st1) _.
          slice-Post st1 code_size ⟫ λ (code, st2) _. parse_body-Post fn code ⟫ λ fn' t.
          returns (types_of-modify funcs idx fn fn' found t ∙ e, omega arith, small))

  pub parse_section_code-IsWellFormed :
      (st : Stream) → IsWellFormed m → Post IsWellFormed F (parse_section_code m st)
  unfolding parse_section_code
  parse_section_code-IsWellFormed st w = read_vu32-Fits st ⟫ λ (count, st1) (fits, _).
      Post-if (u32 (count + m.imported_func_count) != length m.funcs) _ _ (λ _. throws)
        (λ e.
          let n : u32 (count + m.imported_func_count) ≡ length m.funcs = ground arith in
          let start : Progress m count (0, m.funcs) =
            (refl, omega (arith, w.imported), omega arith) in
          (for_each-left (Progress m) count (parse_code m.imported_func_count) parse_code-Progress
              (0, m.funcs) st1 start
            ⟫ at_end-Post)
          ⟫ λ (_, funcs) (t, _, _). returns (with_funcs w funcs t))
