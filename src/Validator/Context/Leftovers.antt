-- ===== src/Validator/Context/Leftovers.antt =====
-- What `pop_ctrl` of src/runtime/validator.c asks of the operands at the end of a block.
use silverfir.Prelude.{◌≡◌, ◌∙◌, refl, List, ◌∷◌}
use silverfir.Result.{ok}
use silverfir.Result.Post.{of_ok}
use silverfir.Validator.Context.{CtrlFrame, Context, push_vals, pop_ctrl}
use silverfir.Validator.Context.Invariant.{IsOpen}
use silverfir.Validator.Context.RoundTrip.{push_vals-Pushed, pop_vals-push_vals}

-- From a well-formed state, whatever operands the block has left on the stack, pushing the results of
-- the top frame and popping the frame succeeds: the frame is taken off, and the operands that were
-- there before its results stay, also those above the height of the frame.
pub pop_ctrl-push_vals :
    (ctx ctx1 : Context) (frame : CtrlFrame) (below : List CtrlFrame)
    → IsOpen ctx
    → ctx.ctrl_stack ≡ frame ∷ below
    → push_vals frame.end_types ctx ≡ ok ctx1
    → pop_ctrl ctx1 ≡ ok (frame, record ctx1 { val_stack = ctx.val_stack; ctrl_stack = below })
unfolding pop_ctrl
pop_ctrl-push_vals ctx ctx1 frame below valid top pushed =
    let (_, ctrl) = of_ok _ (push_vals-Pushed frame.end_types ctx) pushed in
    rw (ctrl ∙ top, pop_ctrl)
      (rw (pop_vals-push_vals frame.end_types ctx ctx1 valid pushed, pop_ctrl) refl)
