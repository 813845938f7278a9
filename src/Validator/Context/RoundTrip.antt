-- ===== src/Validator/Context/RoundTrip.antt =====
-- Operands pushed by the helpers of src/runtime/validator.c are popped again.
use silverfir.Prelude.{
  ◌≤◌, ◌≡◌, ◌∙◌, refl, sym, ap, arith, List, [], ◌∷◌, ◌++◌, reverse, length, length-append,
  List-top,
}
use mathlib.Core.List.{reverse-cons, append_assoc}
use silverfir.Result.{ok}
use silverfir.Result.Post.{Post, returns, of_ok, weaken}
use silverfir.Format.{TypeId}
use silverfir.Validator.Context.{
  CtrlFrame, Context, back_frame, push_val, push_vals, pop_val, pop_val_expect, pop_each,
  pop_vals_to_vec, pop_vals,
}
use silverfir.Validator.Context.Invariant.{IsOpen}

abbrev with_vals : Context → List TypeId → Context
with_vals ctx vals = record ctx { val_stack = vals }

module _ (ctx : Context) (frame : CtrlFrame) (below : List CtrlFrame)
    (top : ctx.ctrl_stack ≡ frame ∷ below) where
  -- The expected type is on top, above the height of the frame.
  pop_val_expect-top :
      (t : TypeId) (rest : List TypeId)
      → frame.height ≤ length rest
      → pop_val_expect t (with_vals ctx (t ∷ rest)) ≡ ok (t, with_vals ctx rest)
  unfolding pop_val_expect pop_val back_frame
  pop_val_expect-top t rest h = rw (top, pop_val_expect, pop_val, back_frame) (ground arith)

  pop_each-append :
      (vals rest : List TypeId)
      → frame.height ≤ length rest
      → pop_each vals (with_vals ctx (vals ++ rest)) ≡ ok (vals, with_vals ctx rest)
  unfolding pop_each
  pop_each-append [] rest h = refl
  pop_each-append (v ∷ vals) rest h =
      rw
        (pop_val_expect-top v (vals ++ rest) (rw (length-append vals rest) (omega arith)), pop_each)
        (rw (pop_each-append vals rest h, pop_each) refl)

-- What `push_vals` does to the stacks.
abbrev pub Pushed : List TypeId → Context → Context → Type 0
Pushed vals ctx ctx1 =
    (ctx1.val_stack ≡ reverse vals ++ ctx.val_stack) × (ctx1.ctrl_stack ≡ ctx.ctrl_stack)

pub push_vals-Pushed :
    (vals : List TypeId) (ctx : Context) → Post (Pushed vals ctx) Unit (push_vals vals ctx)
unfolding push_vals push_val
push_vals-Pushed [] ctx = returns (refl, refl)
push_vals-Pushed (v ∷ vals) ctx =
    weaken
      (λ ctx1 p. (
        p.0
            ∙ sym (append_assoc (reverse vals) (v ∷ []) ctx.val_stack)
            ∙ ap (λ s. s ++ ctx.val_stack) (sym (reverse-cons v vals)),
        p.1,
      ))
      (push_vals-Pushed vals _)

-- Popping the types that were just pushed succeeds, and gives the operand stack back.
pub pop_vals-push_vals :
    (vals : List TypeId) (ctx ctx1 : Context)
    → IsOpen ctx
    → push_vals vals ctx ≡ ok ctx1
    → pop_vals vals ctx1 ≡ ok (record ctx1 { val_stack = ctx.val_stack })
unfolding pop_vals pop_vals_to_vec
pop_vals-push_vals vals ctx ctx1 o e =
    let (frame, below, top) = List-top ctx.ctrl_stack o.has_frame in
    let (stack, ctrl) = of_ok _ (push_vals-Pushed vals ctx) e in
    let q =
      pop_each-append ctx1 frame below (ctrl ∙ top) (reverse vals) ctx.val_stack
        (rw top at o.valid.frames).0 in
    rw (stack, pop_vals, pop_vals_to_vec) (rw (q, pop_vals, pop_vals_to_vec) refl)
