-- ===== src/Validator/Context/Polymorphic.antt =====
-- Behind `unreachable`, a branch or a return, the operand stack of src/runtime/validator.c answers
-- every type.
use silverfir.Prelude.{
  ◌-◌, ◌≡◌, refl, arith, true, List, [], ◌∷◌, reverse, length, length-drop, ltb,
}
use silverfir.Result.{ok}
use silverfir.Result.Post.{Post, returns, throws, faults, Post-if, of_ok}
use silverfir.Format.{TypeId, type_id_unknown}
use silverfir.Validator.Context.{
  CtrlFrame, Context, back_frame, pop_val, pop_val_expect, pop_each, pop_vals_to_vec, pop_vals,
  set_unreachable,
}

-- The top frame is marked, and no operand lies above it.
record IsBare (ctx : Context) : Type 0 where
  frame : CtrlFrame
  top : back_frame ctx ≡ ok frame
  marked : frame.unreachable ≡ true
  level : frame.height ≡ length ctx.val_stack

pop_val-IsBare : (ctx : Context) → IsBare ctx → pop_val ctx ≡ ok (type_id_unknown, ctx)
unfolding pop_val
pop_val-IsBare ctx b = rw (b.top, pop_val) (ground (arith, b.marked, b.level))

pop_val_expect-IsBare :
    (t : TypeId) (ctx : Context) → IsBare ctx → pop_val_expect t ctx ≡ ok (type_id_unknown, ctx)
unfolding pop_val_expect
pop_val_expect-IsBare t ctx b = rw (pop_val-IsBare ctx b, pop_val_expect) (ground arith)

set_unreachable-Bare : (ctx : Context) → Post IsBare Unit (set_unreachable ctx)
unfolding set_unreachable back_frame
set_unreachable-Bare ctx = split ctx.ctrl_stack refl
  where
    split : (fs : List CtrlFrame) → ctx.ctrl_stack ≡ fs → Post IsBare Unit (set_unreachable ctx)
    split [] e = rw (e, set_unreachable) (faults tt)
    split (frame ∷ below) e =
        rw (e, set_unreachable)
          (Post-if (ltb (length ctx.val_stack) frame.height) _ _ (λ _. throws)
            (λ h. returns (record {
              frame = record frame { unreachable = true };
              top = refl;
              marked = refl;
              level =
                  rw (length-drop {0} (length ctx.val_stack - frame.height) ctx.val_stack)
                    (ground arith);
            })))

pop_each-IsBare :
    (vals : List TypeId) (ctx : Context)
    → IsBare ctx
    → (popped : List TypeId) × (pop_each vals ctx ≡ ok (popped, ctx))
unfolding pop_each
pop_each-IsBare [] ctx b = ([], refl)
pop_each-IsBare (v ∷ vals) ctx b =
    let (popped, e) = pop_each-IsBare vals ctx b in
    (type_id_unknown ∷ popped, rw (pop_val_expect-IsBare v ctx b, pop_each) (rw (e, pop_each) refl))

-- After `unreachable` has cut the operand stack, operands of any types can be popped, and the state
-- stays as it is.
pub pop_vals-set_unreachable :
    (vals : List TypeId) (ctx ctx' : Context)
    → set_unreachable ctx ≡ ok ctx'
    → pop_vals vals ctx' ≡ ok ctx'
unfolding pop_vals pop_vals_to_vec
pop_vals-set_unreachable vals ctx ctx' e =
    let b = of_ok _ (set_unreachable-Bare ctx) e in
    let (popped, q) = pop_each-IsBare (reverse vals) ctx' b in
    rw (q, pop_vals, pop_vals_to_vec) refl
