-- ===== src/Interpreter/Constant/Total.antt =====
-- What the reduction of src/interpreter/const_expr_eval.c gives.
use silverfir.Prelude.{
  subst, ℕ, zero, suc, ◌≤◌, ◌<◌, Bool, ◌&&◌, ◌==◌, ◌!=◌, List, [], ◌∷◌, length, arith, All,
}
use silverfir.Result.Post.{Post, returns, throws, Post-if, Post-with, ◌⟫◌}
use silverfir.Stream.{Stream, remaining}
use silverfir.Stream.Moves.{read_u8-Post}
use silverfir.Opcode.{op_ref_null, op_ref_func, op_end}
use silverfir.Interpreter.Constant.{
  TypedValue, ConstInst, reduce_loop, single, interp_reduce_const_expr,
}
use silverfir.Interpreter.Constant.Instructions.{HasValueType, reduce_op-Post}
use silverfir.Interpreter.Constant.Runs.{IsNext, Reaches, start, step, NamesNoFunction, less}

module _ (inst : ConstInst) (passive_elem : Bool) (code : Stream)
    (linked : inst.globals ≤ length inst.g_addrs) (wf : All HasValueType inst.g_addrs) where
  reduce_loop-Post :
      (fuel : ℕ) (value_stack : List TypedValue) (st : Stream)
      → All HasValueType value_stack
      → Reaches inst passive_elem code st
      → remaining st < fuel
      → Post
          (All HasValueType)
          (NamesNoFunction inst passive_elem code)
          (reduce_loop fuel inst passive_elem value_stack st)
  unfolding reduce_loop
  reduce_loop-Post zero value_stack st a reached enough = absurd (omega arith)
  reduce_loop-Post (suc fuel) value_stack st a reached enough =
      Post-if (remaining st == 0) _ _ (λ _. returns a)
        λ left. Post-with _ (read_u8-Post st) ⟫ λ (opcode, st1) (p1, fetched).
          Post-if
            (passive_elem && (opcode != op_ref_null && (opcode != op_ref_func && opcode != op_end)))
            _ _ (λ _. throws)
            λ allowed.
              Post-if (opcode == op_end) _ _ (λ _. returns a)
                λ goes_on.
                  let next : IsNext passive_elem st opcode st1 = record {
                    left = left;
                    fetched = fetched;
                    allowed = allowed;
                    goes_on = goes_on;
                  } in
                  Post-with _ (
                    reduce_op-Post inst linked wf opcode st1 (λ same f_idx st' e past. record {
                      st = st;
                      after = st1;
                      end' = st';
                      f_idx = f_idx;
                      reached = reached;
                      instruction = subst (λ o. IsNext passive_elem st o st1) same next;
                      index = e;
                      missing = past;
                    }))
                  ⟫ λ (value, st2) ((v, p2), e).
                      reduce_loop-Post fuel (value ∷ value_stack) st2 (v, a) (step reached next e)
                        (less st st1 st2 p1 p2 fuel enough)

  single-Post :
      (value_stack : List TypedValue)
      → All HasValueType value_stack
      → Post HasValueType (NamesNoFunction inst passive_elem code) (single value_stack)
  unfolding single
  single-Post [] a = throws
  single-Post (value ∷ []) a = returns a.0
  single-Post (value ∷ other ∷ rest) a = throws

-- With an address and a value type for every global, the reduction of a constant expression fails or
-- gives a value of a value type, on any bytes. Its loop has enough fuel, and it leaves the vectors of
-- the instance only where it comes to a `ref.func` whose index is that of no function.
pub interp_reduce_const_expr-Post :
    (inst : ConstInst) (code : Stream) (passive_elem : Bool)
    → inst.globals ≤ length inst.g_addrs
    → All HasValueType inst.g_addrs
    → Post HasValueType
        (NamesNoFunction inst passive_elem code)
        (interp_reduce_const_expr inst code passive_elem)
unfolding interp_reduce_const_expr
interp_reduce_const_expr-Post inst code passive_elem linked wf =
    reduce_loop-Post inst passive_elem code linked wf (suc (remaining code)) [] code tt start
      (omega arith)
    ⟫ single-Post inst passive_elem code linked wf
