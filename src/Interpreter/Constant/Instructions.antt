-- ===== src/Interpreter/Constant/Instructions.antt =====
-- One instruction of a constant expression, src/interpreter/const_expr_eval.c.
use silverfir.Prelude.{
  ==_iff, ℕ, ◌≤◌, ◌≡◌, refl, true, leb, ◌==◌, List, length, some, arith, All, All-get_elem,
  get_elem?, get_elem-ne-none, one_of,
}
use native.Mathlib.Decide.{dec_lt}
use silverfir.Result.{Result, ok, ◌>>=◌}
use silverfir.Result.Post.{Post, returns, throws, faults, Post-if, Post-found, Post-with, ◌⟫◌}
use silverfir.Format.{TypeId, is_ref, is_value_type, is_num, is_vec}
use silverfir.Stream.{Stream}
use silverfir.Stream.Leb.{read_vu32}
use silverfir.Stream.Moves.{
  IsAhead, Reads, read_vi7-Post, read_f32-Post, read_f64-Post, read_vu32-Post, read_vi32-Post,
  read_vi64-Post,
}
use silverfir.Opcode.{
  op_i32_const, op_i64_const, op_f32_const, op_f64_const, op_ref_null, op_ref_func, op_global_get,
}
use silverfir.Interpreter.{read_at}
use silverfir.Interpreter.Constant.{
  TypedValue, ConstInst, typed, reduce_ref_null, reduce_ref_func, reduce_global_get, reduce_op,
}

abbrev pub HasValueType : TypedValue → Type 0
HasValueType value = is_value_type value.type ≡ true

abbrev pub Gives : Stream → TypedValue × Stream → Type 0
Gives st (value, st') = HasValueType value × IsAhead st st'

is_ref-HasValueType : (t : TypeId) → is_ref t ≡ true → is_value_type t ≡ true
unfolding is_value_type is_num is_vec is_ref one_of
is_ref-HasValueType t e = ground arith

module _ {A : Type 0} {P : A → Type 0} {F : Type 0} where
  read_at-Post :
      (xs : List A) (i : ℕ)
      → ((x : A) → get_elem? xs i ≡ some x → P x)
      → (length xs ≤ i → F)
      → Post P F (read_at xs i)
  unfolding read_at
  read_at-Post xs i found past =
      Post-found (get_elem? xs i) _ _
        (λ missing. elim (dec_lt i (length xs)) [
          | yes inside ↦ absurd (get_elem-ne-none xs i inside missing)
          | no outside ↦ faults (past (omega (arith, outside)))
        ])
        (λ x e. returns (found x e))

-- One instruction, where `F` holds of a `ref.func` whose function does not exist.
module _ {F : Type 0} (inst : ConstInst) (linked : inst.globals ≤ length inst.g_addrs)
    (wf : All HasValueType inst.g_addrs) where
  typed-Post :
      (t : TypeId) (st : Stream) (r : Result (ℕ × Stream))
      → is_value_type t ≡ true
      → Post (Reads st) F r
      → Post (Gives st) F (r >>= typed t)
  typed-Post t st r e p = p ⟫ λ (v, st') a. returns (e, a)

  reduce_ref_null-Post : (st : Stream) → Post (Gives st) F (reduce_ref_null st)
  unfolding reduce_ref_null
  reduce_ref_null-Post st = read_vi7-Post st ⟫ λ (type, st') a.
      Post-if (is_ref type) _ _ (λ e. returns (is_ref-HasValueType type e, a)) (λ _. throws)

  reduce_ref_func-Post :
      (st : Stream)
      → ((f_idx : ℕ) (st' : Stream)
          → read_vu32 st ≡ ok (f_idx, st')
          → length inst.f_addrs ≤ f_idx
          → F)
      → Post (Gives st) F (reduce_ref_func inst st)
  unfolding reduce_ref_func is_value_type is_num is_vec is_ref one_of
  reduce_ref_func-Post st bad = Post-with _ (read_vu32-Post st) ⟫ λ (f_idx, st') (a, e).
      read_at-Post {P = λ _. Unit} inst.f_addrs f_idx (λ _ _. tt) (bad f_idx st' e) ⟫ λ f _.
      returns (refl, a)

  reduce_global_get-Post : (st : Stream) → Post (Gives st) F (reduce_global_get inst st)
  unfolding reduce_global_get
  reduce_global_get-Post st = read_vu32-Post st ⟫ λ (idx, st') a.
      Post-if (leb inst.globals idx) _ _ (λ _. throws)
        (λ inside.
          read_at-Post {P = HasValueType} inst.g_addrs idx
            (λ x e. All-get_elem HasValueType inst.g_addrs idx x wf e)
            (λ past. absurd (ground arith))
          ⟫ λ value v. returns (v, a))

  pub reduce_op-Post :
      (opcode : ℕ) (st : Stream)
      → (opcode ≡ op_ref_func
          → (f_idx : ℕ) (st' : Stream) → read_vu32 st ≡ ok (f_idx, st')
          → length inst.f_addrs ≤ f_idx
          → F)
      → Post (Gives st) F (reduce_op inst opcode st)
  unfolding reduce_op is_value_type is_num is_vec is_ref one_of
  reduce_op-Post opcode st bad =
      Post-if (opcode == op_i32_const) _ _ (λ _. typed-Post _ st _ refl (read_vi32-Post st))
        λ _.
          Post-if (opcode == op_i64_const) _ _ (λ _. typed-Post _ st _ refl (read_vi64-Post st))
            λ _.
              Post-if (opcode == op_f32_const) _ _ (λ _. typed-Post _ st _ refl (read_f32-Post st))
                λ _.
                  Post-if (opcode == op_f64_const) _ _
                    (λ _. typed-Post _ st _ refl (read_f64-Post st))
                    λ _.
                      Post-if (opcode == op_ref_null) _ _ (λ _. reduce_ref_null-Post st)
                        λ _.
                          Post-if (opcode == op_ref_func) _ _
                            (λ e. reduce_ref_func-Post st (bad ((==_iff opcode op_ref_func).0 e)))
                            λ _.
                              Post-if (opcode == op_global_get) _ _ (λ _. reduce_global_get-Post st)
                                λ _. throws
