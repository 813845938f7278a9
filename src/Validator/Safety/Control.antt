-- ===== src/Validator/Safety/Control.antt =====
-- The start of a function and the structured instructions of src/runtime/validator.c.
use silverfir.Prelude.{
  ℕ, ◌<◌, ◌≡◌, ◌==◌, arith, not, List, [], ◌∷◌, All, All-append, length, length-modify, modify,
  if◌then◌else◌, refl, true, false, Bool, All-modify,
}
use silverfir.Result.Post.{Post, returns, throws, Post-if, ◌⟫◌, weaken}
use silverfir.Stream.{Stream}
use silverfir.Module.{FuncType, Func, Module, JumpTable}
use silverfir.Opcode.{op_if, op_loop}
use silverfir.Validator.Context.{Context, CtrlFrame, push_ctrl}
use silverfir.Validator.Context.Invariant.{
  FramesFit, SlotsFit, IsWellFormed, IsOpen, Operands-refl, pop_drop-Post, pop_vals-Post,
  push_vals-Post, push_vals-IsWellFormed,
}
use silverfir.Validator.Context.Frames.{
  FramesFit-modify, Resolved, Resolved-IsWellFormed, Resolved-trans, back_frame-Post, pop_ctrl-Post,
  push_ctrl-Post, parse_types-Post, push_slot-IsOpen, set_target-Post,
}
use silverfir.Validator.Control.{
  on_decode_begin, enter_block, on_block, move_pending, on_else, resolve_slots, on_end, is_if,
}
use silverfir.Validator.Callbacks.{start_context}

-- A change to the top frame that keeps its height, and its slots within the jump table.
modify_top-IsOpen :
    (ctx : Context) (g : CtrlFrame → CtrlFrame)
    → ((frame : CtrlFrame) → (g frame).height ≡ frame.height)
    → ((frame : CtrlFrame) → SlotsFit (length ctx.jt) frame → SlotsFit (length ctx.jt) (g frame))
    → IsOpen ctx
    → IsOpen (record ctx { ctrl_stack = modify ctx.ctrl_stack 0 g })
modify_top-IsOpen ctx g h s o = record {
  valid = record {
    frames = FramesFit-modify (length ctx.val_stack) ctx.ctrl_stack 0 g h o.valid.frames;
    slots = All-modify (SlotsFit (length ctx.jt)) ctx.ctrl_stack 0 g s o.valid.slots;
  };
  has_frame = rw (length-modify {0} ctx.ctrl_stack 0 g) o.has_frame;
}

if-both : {A : Type 0} (P : A → Type 0) (b : Bool) (x y : A) → P x → P y → P (if b then x else y)
if-both P true x y h k = h
if-both P false x y h k = k

enter_block-IsOpen :
    (opcode pc_offset : ℕ) (ctx : Context) → IsOpen ctx → IsOpen (enter_block opcode pc_offset ctx)
unfolding enter_block
enter_block-IsOpen opcode pc_offset ctx o =
    if-both IsOpen (opcode == op_loop) _ _ (modify_top-IsOpen ctx _ (λ _. refl) (λ _ s. s) o)
      (if-both IsOpen (opcode == op_if) _ _ (push_slot-IsOpen 0 _ ctx o) o)

module _ {F : Type 0} where
  -- From the start of a function's validation.
  pub on_decode_begin-Post :
      (mod' : Module) (f : Func) → Post IsOpen F (on_decode_begin (start_context mod' f))
  unfolding on_decode_begin push_ctrl
  on_decode_begin-Post mod' f =
      parse_types-Post f.fn_type.param_count f.fn_type.params ⟫ λ func_params _.
      (parse_types-Post f.fn_type.param_count f.fn_type.params ⟫ λ params _.
      parse_types-Post f.fn_type.result_count f.fn_type.results ⟫ λ results _.
      weaken {Q = λ ctx'. FramesFit 0 ctx'.ctrl_stack × IsOpen ctx'}
        (λ ctx' m. (rw (m.0.ctrl) (omega arith, tt), m.1))
        (push_vals-Post params _ (record {
          valid = record { frames = (omega arith, tt); slots = (tt, tt) };
          has_frame = omega arith;
        })))
      ⟫ λ ctx' m. returns (record {
        valid = record { frames = m.0; slots = m.1.valid.slots };
        has_frame = m.1.has_frame;
      })

  pub on_block-Post :
      (opcode : ℕ) (imm : Stream) (type : FuncType) (ctx : Context)
      → IsOpen ctx
      → Post IsOpen F (on_block opcode imm type ctx)
  unfolding on_block
  on_block-Post opcode imm type ctx o =
      Post-if (opcode == op_if) _ _ (λ _. pop_drop-Post _ ctx o) (λ _. returns (Operands-refl o, o))
      ⟫ λ ctx1 m1. parse_types-Post type.param_count type.params ⟫ λ param_types _.
          pop_vals-Post param_types ctx1 m1.1 ⟫ λ ctx2 m2.
          push_ctrl-Post _ type ctx2 m2.1.valid ⟫ λ ctx3 m3.
          returns (enter_block-IsOpen opcode _ ctx3 m3.0)

  resolve_slots-Post :
      (target : JumpTable → ℕ) (slots : List ℕ) (ctx : Context)
      → All (λ i. i < length ctx.jt) slots
      → Post (Resolved ctx) F (resolve_slots target slots ctx)
  unfolding resolve_slots
  resolve_slots-Post target [] ctx a =
      returns (record { vals = refl; ctrl = refl; jt_length = refl })
  resolve_slots-Post target (i ∷ slots) ctx a = set_target-Post target i ctx a.0 ⟫ λ ctx1 r.
      weaken (λ ctx2 q. Resolved-trans r q)
        (resolve_slots-Post target slots ctx1 (rw (r.jt_length) a.1))

  -- The frame may have been the last one.
  pub on_end-Post :
      (imm : Stream) (ctx : Context) → IsOpen ctx → Post IsWellFormed F (on_end imm ctx)
  unfolding on_end
  on_end-Post imm ctx o = pop_ctrl-Post ctx o ⟫ λ (cf, ctx1) p.
      resolve_slots-Post _ cf.pending_jt_slots ctx1 p.slots ⟫ λ ctx2 r.
      push_vals-IsWellFormed cf.end_types ctx2 (Resolved-IsWellFormed ctx1 ctx2 r p.valid)

  move_pending-Post :
      (pc_offset : ℕ) (slots : List ℕ) (ctx : Context)
      → All (λ i. i < length ctx.jt) slots
      → IsOpen ctx
      → Post IsOpen F (move_pending pc_offset slots ctx)
  unfolding move_pending
  move_pending-Post pc_offset [] ctx a o = returns o
  move_pending-Post pc_offset (i ∷ slots) ctx a o = set_target-Post _ i ctx a.0 ⟫ λ ctx1 r.
      returns (
        modify_top-IsOpen ctx1 _ (λ _. refl)
          (λ frame s. All-append (λ j. j < _) frame.pending_jt_slots slots s (rw (r.jt_length) a.1))
          (record {
            valid = Resolved-IsWellFormed ctx ctx1 r o.valid;
            has_frame = rw (r.ctrl) o.has_frame;
          }))

  pub on_else-Post : (imm : Stream) (ctx : Context) → IsOpen ctx → Post IsOpen F (on_else imm ctx)
  unfolding on_else
  on_else-Post imm ctx o = back_frame-Post ctx o ⟫ λ current _.
      Post-if (not (is_if current.type)) _ _ (λ _. throws)
        (λ _. pop_ctrl-Post ctx o ⟫ λ (cf, ctx1) p.
          push_ctrl-Post _ cf.ftype ctx1 p.valid ⟫ λ ctx2 m.
          move_pending-Post _ cf.pending_jt_slots ctx2 (rw (m.1) p.slots) m.0 ⟫ λ ctx3 o3.
          back_frame-Post ctx3 o3 ⟫ λ else_frame _. returns (push_slot-IsOpen 0 _ ctx3 o3))
