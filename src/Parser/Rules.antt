-- ===== src/Parser/Rules.antt =====
-- Rules for what the section parsers of src/runtime/parser.c share: a loop keeps what its rounds
-- keep, and no shared part leaves its buffer.
use silverfir.Prelude.{
  ℕ, zero, suc, ◌+◌, ◌-◌, ◌≤◌, ◌<◌, ◌≡◌, ◌^◌, refl, ap, sym, Bool, true, false, arith, ltb, ◌==◌,
  ◌!=◌, ◌&&◌, List, length,
}
use silverfir.Result.{Result, ok, ◌>>=◌}
use silverfir.Result.Post.{Post, returns, throws, Post-if, Post-with, ◌⟫◌, weaken}
use silverfir.Stream.{Stream, IsValid, remaining, slice}
use silverfir.Stream.Leb.{read_vu32}
use silverfir.Stream.Leb.Bounds.{read_vu32-lt}
use silverfir.Stream.Moves.{
  IsAhead, IsFrom, Reads, IsAhead-trans, read_u8-Post, read_vu32-Post, read_vi7-Post,
  read_vi32-Post, read_vi64-Post, read_f32-Post, read_f64-Post, IsAhead-IsFrom, IsFrom-refl,
  IsAhead-from,
}
use silverfir.Opcode.{op_end}
use silverfir.Parser.{
  for_each, at_end, reserve, limits_max, parse_limits, skip_immediate, skip_expr, parse_const_expr,
  parse_name,
}

-- What holds of the first part of a pair with a stream.
abbrev pub Of {ℓ} : {A : Type ℓ} → (A → Type 0) → A × Stream → Type 0
Of P (a, st) = P a

abbrev pub Any : {A : Type 0} → A → Type 0
Any a = Unit {0}

module _ {A : Type 0} {P : A → Type 0} {F : Type 0} where
  pub for_each-Post :
      (count : ℕ) (round : A → Stream → Result (A × Stream))
      → ((a : A) (st : Stream) → P a → Post (Of P) F (round a st))
      → (a : A) (st : Stream) → P a
      → Post (Of P) F (for_each count round a st)
  unfolding for_each
  for_each-Post zero round keep a st p = returns p
  for_each-Post (suc count) round keep a st p =
      keep a st p ⟫ λ (a', st') p'. for_each-Post count round keep a' st' p'

  pub at_end-Post : (x : A × Stream) → Of P x → Post P F (at_end x)
  unfolding at_end
  at_end-Post (a, st) p = Post-if (remaining st == 0) _ _ (λ _. returns p) (λ _. throws)

left : {st st' : Stream} → IsAhead st st' → length st'.s - st'.p < length st.s - st.p
left {st} {st'} a = omega (arith, ap length (a.same), a.ahead, a.within)

module _ {F : Type 0} where
  pub reserve-Post : (fixed : Bool) → Post (λ _. fixed ≡ false) F (reserve fixed)
  unfolding reserve
  reserve-Post true = throws
  reserve-Post false = returns refl

  -- A number that fits its type, and a stream further on.
  pub read_vu32-Fits :
      (st : Stream) → Post (λ (x, st'). (x < 2 ^ 32) × IsAhead st st') F (read_vu32 st)
  read_vu32-Fits st =
      weaken (λ (x, st') (a, e). (read_vu32-lt st (x, st') e, a))
        (Post-with (read_vu32 st) (read_vu32-Post st))

  pub slice-Post :
      (st : Stream) (n : ℕ)
      → Post
          (λ (sub, st').
            (st'.s ≡ st.s) × (st'.p ≡ st.p + n) × (st'.p ≤ length st.s + (st.p - length st.s)))
          F
          (slice st n)
  unfolding slice remaining
  slice-Post st n =
      Post-if (ltb (length st.s - st.p) n) _ _ (λ _. throws)
        (λ e. returns (refl, refl, ground arith))

  onward :
      (st : Stream) (m : Result (ℕ × Stream))
      → Post (Reads st) F m
      → Post (IsFrom st) F (m >>= λ (_, st'). ok st')
  onward st m r = r ⟫ λ (_, st') a. returns (IsAhead-IsFrom a)

  skip_immediate-Post :
      (opcode : ℕ) (st : Stream) → IsValid st → Post (IsFrom st) F (skip_immediate opcode st)
  unfolding skip_immediate
  skip_immediate-Post opcode st v =
      search
        (
          Post-if, onward, read_vi32-Post, read_vi64-Post, read_f32-Post, read_f64-Post,
          read_vi7-Post, read_vu32-Post, returns, IsFrom-refl, v,
        )
        depth 20

  -- The fuel of the loop is enough.
  skip_expr-Post :
      (fuel : ℕ) (st : Stream) → length st.s - st.p < fuel → Post (IsAhead st) F (skip_expr fuel st)
  unfolding skip_expr
  skip_expr-Post zero st h = absurd (omega arith)
  skip_expr-Post (suc fuel) st h = read_u8-Post st ⟫ λ (opcode, st1) a.
      Post-if (opcode == op_end) _ _ (λ _. returns a)
        (λ _. skip_immediate-Post opcode st1 (rw (sym a.same) at a.within) ⟫ λ st2 b.
          let c = IsAhead-from a b in
          weaken (λ st3 d. IsAhead-trans c d) (skip_expr-Post fuel st2 (omega (arith, left c))))

  pub parse_const_expr-Post : (st : Stream) → Post (Of Any) F (parse_const_expr st)
  unfolding parse_const_expr remaining
  parse_const_expr-Post st = skip_expr-Post _ st (omega arith) ⟫ λ st' a. returns tt

  limits_max-Post :
      (flag max_cap : ℕ) (st : Stream)
      → Post (λ (m, st'). m ≤ max_cap) F (limits_max flag max_cap st)
  unfolding limits_max
  limits_max-Post flag max_cap st =
      Post-if (flag == 1) _ _
        (λ _. read_vu32-Post st ⟫ λ (m, st') a.
          Post-if (ltb max_cap m) _ _ (λ _. throws) (λ e. returns (ground arith)))
        (λ _. returns (omega arith))

  pub parse_limits-Post :
      (st : Stream) (max_cap : ℕ)
      → Post (Of (λ lim. (lim.min ≤ lim.max) × (lim.max ≤ max_cap))) F (parse_limits st max_cap)
  unfolding parse_limits
  parse_limits-Post st max_cap = read_u8-Post st ⟫ λ (flag, st1) _.
      Post-if (flag != 0 && flag != 1) _ _ (λ _. throws)
        (λ _. read_vu32-Post st1 ⟫ λ (min, st2) _.
          limits_max-Post flag max_cap st2 ⟫ λ (max, st3) h.
          Post-if (ltb max min) _ _ (λ _. throws) (λ e. returns (ground arith, h)))

  pub parse_name-Post :
      (is_valid_utf8 : List ℕ → Bool) (st : Stream) → Post (Of Any) F (parse_name is_valid_utf8 st)
  unfolding parse_name
  parse_name-Post is_valid_utf8 st = read_vu32-Post st ⟫ λ (n, st1) _.
      Post-if (n == 0) _ _ (λ _. returns tt)
        (λ _. slice-Post st1 n ⟫ λ (name, st2) _.
          Post-if (is_valid_utf8 name.s) _ _ (λ _. returns tt) (λ _. throws))
