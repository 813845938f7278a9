-- ===== src/Interpreter/Constant/Faults.antt =====
-- Constant expressions of src/interpreter/const_expr_eval.c that name a function that does not exist.
use silverfir.Prelude.{
  get_elem-past, ℕ, zero, suc, ◌≤◌, ◌<◌, ◌≡◌, refl, ◌∙◌, Bool, List, [], ◌∷◌, length, arith, All,
}
use silverfir.Result.{ok, fault}
use silverfir.Result.Post.{of_ok}
use silverfir.Stream.{Stream, remaining}
use silverfir.Stream.Leb.{read_vu32}
use silverfir.Stream.Moves.{read_u8-Post}
use silverfir.Opcode.{op_ref_func}
use silverfir.Interpreter.{read_at}
use silverfir.Interpreter.Constant.{
  TypedValue, ConstInst, reduce_ref_func, reduce_op, reduce_loop, interp_reduce_const_expr,
}
use silverfir.Interpreter.Constant.Instructions.{HasValueType, reduce_op-Post}
use silverfir.Interpreter.Constant.Runs.{IsNext, Reaches, start, step, NamesNoFunction, less}

-- What is left of a run that has come to a position: the fuel and the values so far.
abbrev Rest : ConstInst → Bool → Stream → Stream → Type 0
Rest inst passive_elem code st =
    (fuel : ℕ) × (value_stack : List TypedValue) × (remaining st < fuel)
    × (reduce_loop (suc (remaining code)) inst passive_elem [] code
        ≡ reduce_loop fuel inst passive_elem value_stack st)

module _ (inst : ConstInst) (passive_elem : Bool) (code : Stream)
    (linked : inst.globals ≤ length inst.g_addrs) (wf : All HasValueType inst.g_addrs) where
  taken :
      (fuel : ℕ) (value_stack : List TypedValue) (st after st' : Stream) (opcode : ℕ)
      (value : TypedValue)
      → IsNext passive_elem st opcode after
      → reduce_op inst opcode after ≡ ok (value, st')
      → reduce_loop (suc fuel) inst passive_elem value_stack st
        ≡ reduce_loop fuel inst passive_elem (value ∷ value_stack) st'
  unfolding reduce_loop
  taken fuel value_stack st after st' opcode value next e =
      rw (next.left, next.fetched, next.allowed, next.goes_on, e) refl

  step-Rest :
      (st after st' : Stream) (opcode : ℕ) (value : TypedValue)
      → IsNext passive_elem st opcode after
      → reduce_op inst opcode after ≡ ok (value, st')
      → Rest inst passive_elem code st
      → Rest inst passive_elem code st'
  step-Rest st after st' opcode value next e (zero, value_stack, enough, runs) =
      absurd (omega arith)
  step-Rest st after st' opcode value next e (suc fuel, value_stack, enough, runs) =
      let first = of_ok _ (read_u8-Post {F = Unit} st) next.fetched in
      let second =
        of_ok _ (reduce_op-Post {F = Unit} inst linked wf opcode after (λ _ _ _ _ _. tt)) e in
      (
        fuel,
        value ∷ value_stack,
        less st after st' first second.1 fuel enough,
        runs ∙ taken fuel value_stack st after st' opcode value next e,
      )

  Reaches-Rest : (st : Stream) → Reaches inst passive_elem code st → Rest inst passive_elem code st
  Reaches-Rest _ start = (suc (remaining code), [], omega arith, refl)
  Reaches-Rest st'
        (step {st = st} {after = after} {opcode = opcode} {value = value} reached next e) =
      step-Rest st after st' opcode value next e (Reaches-Rest st reached)

  missing-fault :
      (st after end' : Stream) (f_idx : ℕ)
      → IsNext passive_elem st op_ref_func after
      → read_vu32 after ≡ ok (f_idx, end')
      → length inst.f_addrs ≤ f_idx
      → Rest inst passive_elem code st
      → interp_reduce_const_expr inst code passive_elem ≡ fault
  unfolding interp_reduce_const_expr reduce_loop reduce_op reduce_ref_func read_at
  missing-fault st after end' f_idx next e past (zero, value_stack, enough, runs) =
      absurd (omega arith)
  missing-fault st after end' f_idx next e past (suc fuel, value_stack, enough, runs) = rw runs (
      rw (next.left, next.fetched, next.allowed, e)
        (rw (get_elem-past inst.f_addrs f_idx past, read_at) refl))

-- Wherever the reduction comes to a `ref.func` with an index that no function of the instance has, it
-- reads outside `f_addrs`.
pub interp_reduce_const_expr-fault :
    (inst : ConstInst) (code : Stream) (passive_elem : Bool)
    → inst.globals ≤ length inst.g_addrs
    → All HasValueType inst.g_addrs
    → NamesNoFunction inst passive_elem code
    → interp_reduce_const_expr inst code passive_elem ≡ fault
interp_reduce_const_expr-fault inst code passive_elem linked wf names =
    missing-fault inst passive_elem code linked wf names.st names.after names.end' names.f_idx
      names.instruction names.index names.missing
      (Reaches-Rest inst passive_elem code linked wf names.st names.reached)
