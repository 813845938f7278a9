-- ===== src/Validator/Context/Frames.antt =====
-- How the helpers on the control stack and on the jump table keep the invariant.
use silverfir.Prelude.{
  ℕ, zero, suc, ◌-◌, ◌<◌, ◌≡◌, refl, ◌∙◌, ltb, arith, List, [], ◌∷◌, ◌++◌, length, All-append,
  modify, length-append, length-drop, length-modify, u32, All-modify, All-weaken, get_elem-ne-none,
  get_elem-in, List-top,
}
use silverfir.Result.Post.{Post, returns, throws, ◌⟫◌, Post-of_ok, Post-if, weaken}
use silverfir.Module.{JumpTable, FuncType, parse_types_loop, parse_types}
use silverfir.Format.{is_value_type}
use silverfir.Stream.{Stream}
use silverfir.Stream.Moves.{read_vi7-Post}
use silverfir.Validator.Context.{
  CtrlFrame, Context, push_ctrl, pop_ctrl, BlockType, set_unreachable, back_frame, frame_at,
  push_slot, set_target,
}
use silverfir.Validator.Context.Invariant.{
  FramesFit, SlotsFit, IsWellFormed, IsOpen, FramesFit-mono, push_vals-Post, pop_vals-Post,
}

-- The frame is the top of the control stack.
pub record IsTop (ctx : Context) (frame : CtrlFrame) : Type 0 where
  pub below : List CtrlFrame
  pub split : ctx.ctrl_stack ≡ frame ∷ below

-- Changes to one frame that leave its height.
pub FramesFit-modify :
    (n : ℕ) (fs : List CtrlFrame) (i : ℕ) (g : CtrlFrame → CtrlFrame)
    → ((frame : CtrlFrame) → (g frame).height ≡ frame.height)
    → FramesFit n fs
    → FramesFit n (modify fs i g)
FramesFit-modify n [] i g h f = tt
FramesFit-modify n (frame ∷ fs) zero g h f = rw (h frame) f
FramesFit-modify n (frame ∷ fs) (suc i) g h f = (f.0, FramesFit-modify frame.height fs i g h f.1)

slot_below : (jt : List JumpTable) (slot : JumpTable) → u32 (length jt) < length (jt ++ (slot ∷ []))
slot_below jt slot = rw (length-append jt (slot ∷ [])) (omega arith)

-- Another record at the end of the jump table, pending at a label.
pub push_slot-IsOpen :
    (l : ℕ) (slot : JumpTable) (ctx : Context) → IsOpen ctx → IsOpen (push_slot l slot ctx)
unfolding push_slot
push_slot-IsOpen l slot ctx o = record {
  valid = record {
    frames = FramesFit-modify (length ctx.val_stack) ctx.ctrl_stack l _ (λ _. refl) o.valid.frames;
    slots =
        All-modify (SlotsFit _) ctx.ctrl_stack l _
          (λ frame a.
            All-append (λ i. i < _) frame.pending_jt_slots _ a (slot_below ctx.jt slot, tt))
          (All-weaken
            (λ frame a.
              All-weaken (λ i h. rw (length-append ctx.jt (slot ∷ [])) (omega arith))
                frame.pending_jt_slots a)
            ctx.ctrl_stack o.valid.slots);
  };
  has_frame = rw (length-modify {0} ctx.ctrl_stack l _) o.has_frame;
}

-- The same state but for the targets in the jump table.
pub record Resolved (ctx ctx' : Context) : Type 0 where
  pub vals : ctx'.val_stack ≡ ctx.val_stack
  pub ctrl : ctx'.ctrl_stack ≡ ctx.ctrl_stack
  pub jt_length : length ctx'.jt ≡ length ctx.jt

pub Resolved-IsWellFormed :
    (ctx ctx' : Context) → Resolved ctx ctx' → IsWellFormed ctx → IsWellFormed ctx'
Resolved-IsWellFormed ctx ctx' r v = record {
  frames = rw (r.vals, r.ctrl) v.frames;
  slots = rw (r.ctrl, r.jt_length) v.slots;
}

pub Resolved-trans : {a b c : Context} → Resolved a b → Resolved b c → Resolved a c
Resolved-trans h k = record {
  vals = k.vals ∙ h.vals;
  ctrl = k.ctrl ∙ h.ctrl;
  jt_length = k.jt_length ∙ h.jt_length;
}

-- What `pop_ctrl` returns: a frame whose slots the jump table has, and a state without it.
pub record Popped (x : CtrlFrame × Context) : Type 0 where
  pub slots : SlotsFit (length x.1.jt) x.0
  pub valid : IsWellFormed x.1

module _ {F : Type 0} where
  pub back_frame-Post : (ctx : Context) → IsOpen ctx → Post (IsTop ctx) F (back_frame ctx)
  unfolding back_frame
  back_frame-Post ctx o =
      let (frame, below, e) = List-top ctx.ctrl_stack o.has_frame in
      rw (e, back_frame) (returns (record { below = below; split = refl }))

  pub set_unreachable-Post : (ctx : Context) → IsOpen ctx → Post IsOpen F (set_unreachable ctx)
  unfolding set_unreachable
  set_unreachable-Post ctx o = back_frame-Post ctx o ⟫ λ frame t.
      Post-if (ltb (length ctx.val_stack) frame.height) _ _ (λ _. throws)
        (λ h. returns (record {
          valid = record {
            frames = rw (t.split) (
              rw (length-drop {0} (length ctx.val_stack - frame.height) ctx.val_stack)
                  (ground arith),
              (rw (t.split) at o.valid.frames).1,
            );
            slots =
                All-modify (SlotsFit (length ctx.jt)) ctx.ctrl_stack 0 _ (λ _ a. a) o.valid.slots;
          };
          has_frame = rw (length-modify {0} ctx.ctrl_stack 0 _) o.has_frame;
        }))

  -- The frame at a label in range.
  pub frame_at-Post :
      (l : ℕ) (ctx : Context) → l < length ctx.ctrl_stack → Post (λ _. Unit) F (frame_at l ctx)
  unfolding frame_at
  frame_at-Post l ctx h =
      Post-of_ok (frame_at l ctx) (ground (arith, get_elem-ne-none ctx.ctrl_stack l h)) (λ _ _. tt)

  -- A branch is resolved through a slot that the jump table has.
  pub set_target-Post :
      (offset : JumpTable → ℕ) (slot_idx : ℕ) (ctx : Context)
      → slot_idx < length ctx.jt
      → Post (Resolved ctx) F (set_target offset slot_idx ctx)
  unfolding set_target
  set_target-Post offset slot_idx ctx h =
      let (slot, e) = get_elem-in ctx.jt slot_idx h in
      rw (e, set_target)
        (returns
          (record { vals = refl; ctrl = refl; jt_length = length-modify {0} ctx.jt slot_idx _ }))

  parse_types_loop-Post :
      (rounds : ℕ) (st : Stream) → Post (λ _. Unit) F (parse_types_loop rounds st)
  unfolding parse_types_loop
  parse_types_loop-Post zero st = returns tt
  parse_types_loop-Post (suc rounds) st = read_vi7-Post st ⟫ λ (t, st') _.
      Post-if (is_value_type t) _ _ (λ _. parse_types_loop-Post rounds st' ⟫ λ ts _. returns tt)
        (λ _. throws)

  pub parse_types-Post : (count : ℕ) (types : List ℕ) → Post (λ _. Unit) F (parse_types count types)
  unfolding parse_types
  parse_types-Post zero types = returns tt
  parse_types-Post (suc count) types = parse_types_loop-Post (suc count) _

  pub push_ctrl-Post :
      (bt : BlockType) (ftype : FuncType) (ctx : Context)
      → IsWellFormed ctx
      → Post (λ ctx'. IsOpen ctx' × (ctx'.jt ≡ ctx.jt)) F (push_ctrl bt ftype ctx)
  unfolding push_ctrl
  push_ctrl-Post bt ftype ctx v = parse_types-Post ftype.param_count ftype.params ⟫ λ params _.
      parse_types-Post ftype.result_count ftype.results ⟫ λ results _.
      weaken (λ ctx' m. (m.1, m.0.jt))
        (push_vals-Post params _ (record {
          valid = record { frames = (omega arith, v.frames); slots = (tt, v.slots) };
          has_frame = omega arith;
        }))

  pub pop_ctrl-Post : (ctx : Context) → IsOpen ctx → Post Popped F (pop_ctrl ctx)
  unfolding pop_ctrl
  pop_ctrl-Post ctx o =
      let (frame, below, e) = List-top ctx.ctrl_stack o.has_frame in
      rw (e, pop_ctrl)
        (pop_vals-Post frame.end_types ctx o ⟫ λ ctx' m.
          let fits = rw e at m.0.frames in
          let slots = rw e at o.valid.slots in
          returns (record {
            slots = rw (m.0.jt) slots.0;
            valid = record {
              frames = FramesFit-mono _ _ below fits.0 fits.1;
              slots = rw (m.0.jt) slots.1;
            };
          }))
