-- ===== src/Validator/Safety/Branch.antt =====
-- Branches, returns and calls of src/runtime/validator.c.
use silverfir.Prelude.{ℕ, ◌≡◌, arith, refl, leb, ◌==◌, length, length-modify, get_elem?, List-top}
use silverfir.Result.Post.{Post, returns, throws, Post-if, Post-Option, ◌⟫◌, weaken}
use silverfir.Stream.{Stream}
use silverfir.Opcode.{op_br, op_br_if}
use silverfir.Validator.Context.{Context, CtrlFrame, push_slot}
use silverfir.Validator.Context.Invariant.{
  IsOpen, Operands-refl, Moved, pop_drop-Post, pop_vals-Post, push_vals-Post,
}
use silverfir.Validator.Context.Frames.{
  set_unreachable-Post, frame_at-Post, push_slot-IsOpen, parse_types-Post,
}
use silverfir.Validator.Branch.{
  on_unreachable, record_branch, on_br_or_if, outer_frame, on_return, reserve_locals, on_call,
  on_call_indirect,
}

-- An open state with n frames.
pub record HasFrames (n : ℕ) (ctx : Context) : Type 0 where
  pub is_open : IsOpen ctx
  pub frames : length ctx.ctrl_stack ≡ n

pub Moved-HasFrames : {n : ℕ} {a b : Context} → HasFrames n a → Moved a b → HasFrames n b
Moved-HasFrames h m = record { is_open = m.1; frames = rw (m.0.ctrl) h.frames }

pub record_branch-HasFrames :
    (pc l arity : ℕ) (target : CtrlFrame) (n : ℕ) (ctx : Context)
    → HasFrames n ctx
    → HasFrames n (record_branch pc l arity target ctx)
unfolding record_branch push_slot
record_branch-HasFrames pc l arity target n ctx h = record {
  is_open = push_slot-IsOpen l _ ctx h.is_open;
  frames = rw (length-modify {0} ctx.ctrl_stack l _) h.frames;
}

reserve_locals-IsOpen :
    (local_count : ℕ) (ctx : Context) → IsOpen ctx → IsOpen (reserve_locals local_count ctx)
unfolding reserve_locals
reserve_locals-IsOpen local_count ctx o = record {
  valid = record { frames = o.valid.frames; slots = o.valid.slots };
  has_frame = o.has_frame;
}

module _ {F : Type 0} where
  pub on_unreachable-Post : (ctx : Context) → IsOpen ctx → Post IsOpen F (on_unreachable ctx)
  unfolding on_unreachable
  on_unreachable-Post ctx o = set_unreachable-Post ctx o

  pub on_br_or_if-Post :
      (opcode : ℕ) (imm : Stream) (lth : ℕ) (ctx : Context)
      → IsOpen ctx
      → Post IsOpen F (on_br_or_if opcode imm lth ctx)
  unfolding on_br_or_if
  on_br_or_if-Post opcode imm lth ctx o =
      Post-if (leb (length ctx.ctrl_stack) lth) _ _ (λ _. throws)
        (λ h.
          Post-if (opcode == op_br_if) _ _ (λ _. pop_drop-Post _ ctx o)
            (λ _. returns (Operands-refl o, o))
          ⟫ λ ctx1 m. frame_at-Post lth ctx1 (rw (m.0.ctrl) (ground arith)) ⟫ λ target _.
              pop_vals-Post _ _
                (record_branch-HasFrames imm.p lth _ target _ ctx1
                  (record { is_open = m.1; frames = refl })).is_open
              ⟫ λ ctx2 m2.
                  Post-if (opcode == op_br) _ _ (λ _. set_unreachable-Post ctx2 m2.1)
                    (λ _. weaken (λ ctx3 m3. m3.1) (push_vals-Post _ ctx2 m2.1)))

  outer_frame-Post : (ctx : Context) → IsOpen ctx → Post (λ _. Unit) F (outer_frame ctx)
  unfolding outer_frame
  outer_frame-Post ctx o =
      let (frame, below, e) = List-top ctx.ctrl_stack o.has_frame in
      rw (e, outer_frame) (frame_at-Post (length below) ctx (rw e (omega arith)))

  pub on_return-Post : (ctx : Context) → IsOpen ctx → Post IsOpen F (on_return ctx)
  unfolding on_return
  on_return-Post ctx o = outer_frame-Post ctx o ⟫ λ target _.
      pop_vals-Post _ ctx o ⟫ λ ctx1 m. set_unreachable-Post ctx1 m.1

  pub on_call-Post :
      (func_idx : ℕ) (ctx : Context) → IsOpen ctx → Post IsOpen F (on_call func_idx ctx)
  unfolding on_call
  on_call-Post func_idx ctx o = Post-Option (get_elem? ctx.mod'.funcs func_idx) _ _ throws (λ fn.
      parse_types-Post fn.fn_type.param_count fn.fn_type.params ⟫ λ param_types _.
      pop_vals-Post param_types ctx o ⟫ λ ctx1 m.
      parse_types-Post fn.fn_type.result_count fn.fn_type.results ⟫ λ result_types _.
      weaken (λ ctx2 n. n.1)
        (push_vals-Post result_types _ (reserve_locals-IsOpen fn.local_count ctx1 m.1)))

  pub on_call_indirect-Post :
      (type_idx table_idx : ℕ) (ctx : Context)
      → IsOpen ctx
      → Post IsOpen F (on_call_indirect type_idx table_idx ctx)
  unfolding on_call_indirect
  on_call_indirect-Post type_idx table_idx ctx o = pop_drop-Post _ ctx o ⟫ λ ctx1 m1.
      Post-if (leb (length ctx.mod'.tables) table_idx) _ _ (λ _. throws)
        (λ _. Post-Option (get_elem? ctx.mod'.func_types type_idx) _ _ throws (λ ft.
          parse_types-Post ft.param_count ft.params ⟫ λ param_types _.
          pop_vals-Post param_types ctx1 m1.1 ⟫ λ ctx2 m2.
          parse_types-Post ft.result_count ft.results ⟫ λ result_types _.
          weaken (λ ctx3 m3. m3.1) (push_vals-Post result_types ctx2 m2.1)))
