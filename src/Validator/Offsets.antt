-- ===== src/Validator/Offsets.antt =====
-- What the record of a branch says of the operand stack, src/runtime/validator.c: how many operands
-- the branch carries, and how many it drops.
use silverfir.Prelude.{
  ℕ, zero, suc, ◌+◌, ◌-◌, ◌^◌, ◌≤◌, ◌<◌, ◌≡◌, ◌∙◌, ap, refl, arith, Bool-cases, inl, inr, false,
  List, [], ◌∷◌, reverse, length, length-append, modify, get_elem?, get_elem-modify-same,
  get_elem-append, some, leb, ltb, ◌==◌, if◌then◌else◌, u32, u16,
}
use mathlib.Core.List.{reverse-cons}
use silverfir.Result.{ok}
use silverfir.Result.Post.{Post, returns, throws, faults, Post-if, Post-both, of_ok, ◌⟫◌, weaken}
use silverfir.Format.{TypeId, type_id_i32}
use silverfir.Stream.{Stream}
use silverfir.Opcode.{op_br, op_br_if}
use silverfir.Module.{JumpTable}
use silverfir.Validator.Context.{
  CtrlFrame, Context, back_frame, frame_at, label_types, pop_drop, pop_vals, pop_vals_to_vec,
  push_slot, set_unreachable, stack_offset_of, new_slot,
}
use silverfir.Validator.Context.Invariant.{
  FramesFit, IsOpen, Moved, Operands-refl, pop_drop-Post, pop_vals-Post,
}
use silverfir.Validator.Context.Exact.{
  IsReachable, AllServe-length, pop_each-exact, pop_val_expect-exact, still,
}
use silverfir.Validator.Branch.{record_branch, on_br_or_if}
use silverfir.Validator.Safety.Branch.{HasFrames, record_branch-HasFrames}
use silverfir.Validator.Targets.{push_vals-jt}

length-reverse : {A : Type 0} (xs : List A) → length (reverse xs) ≡ length xs
length-reverse [] = refl
length-reverse (x ∷ xs) =
    rw (reverse-cons x xs) (omega (arith, length-append (reverse xs) (x ∷ []), length-reverse xs))

-- The frame at a label is within the operands.
FramesFit-at :
    (n : ℕ) (fs : List CtrlFrame) (l : ℕ) (frame : CtrlFrame)
    → get_elem? fs l ≡ some frame
    → FramesFit n fs
    → frame.height ≤ n
FramesFit-at n [] l frame e f = cc
FramesFit-at n (x ∷ fs) zero frame e f = let same : x ≡ frame = cc in rw (← same) f.0
FramesFit-at n (x ∷ fs) (suc l) frame e f =
    let h = FramesFit-at x.height fs l frame e f.1 in omega (arith, h, f.0)

set_unreachable-jt : (ctx : Context) → Post (λ ctx'. ctx'.jt ≡ ctx.jt) Unit (set_unreachable ctx)
unfolding set_unreachable back_frame
set_unreachable-jt ctx = go ctx.ctrl_stack refl
  where
    go :
        (fs : List CtrlFrame)
        → ctx.ctrl_stack ≡ fs
        → Post (λ ctx'. ctx'.jt ≡ ctx.jt) Unit (set_unreachable ctx)
    go [] e = rw (e, set_unreachable, back_frame) (faults tt)
    go (frame ∷ below) e =
        rw (e, set_unreachable, back_frame)
          (Post-if (ltb (length ctx.val_stack) frame.height) _ _ (λ _. throws) (λ _. returns refl))

frame_at-label :
    (l : ℕ) (ctx : Context) (label : CtrlFrame)
    → get_elem? ctx.ctrl_stack l ≡ some label
    → Post (λ frame. frame ≡ label) Unit (frame_at l ctx)
unfolding frame_at
frame_at-label l ctx label e = rw (e, frame_at) (returns refl)

-- The lengths of the operand stack around a pop in reachable code.
pop_drop-length :
    (t : TypeId) (ctx : Context)
    → IsReachable ctx
    → Post (λ ctx'. length ctx.val_stack ≡ suc (length ctx'.val_stack)) Unit (pop_drop t ctx)
unfolding pop_drop
pop_drop-length t ctx r = pop_val_expect-exact ctx r t ⟫ λ (_, ctx1) (p, _). returns (ap length p.0)

pop_vals-length :
    (vals : List TypeId) (ctx : Context)
    → IsReachable ctx
    → Post
        (λ ctx'. length ctx.val_stack ≡ length vals + length ctx'.val_stack)
        Unit
        (pop_vals vals ctx)
unfolding pop_vals pop_vals_to_vec
pop_vals-length vals ctx r =
    pop_each-exact (reverse vals) ctx r ⟫ λ (popped, ctx1) (stack, serve, _). returns (
      omega (
        arith,
        ap length stack,
        length-append popped ctx1.val_stack,
        AllServe-length (reverse vals) popped serve,
        length-reverse vals,
      ))

-- Changes to a frame that keep its mark keep the top frame reachable.
reachable-modify :
    (fs : List CtrlFrame) (l : ℕ) (g : CtrlFrame → CtrlFrame) (frame : CtrlFrame)
    (below : List CtrlFrame)
    → ((f : CtrlFrame) → (g f).unreachable ≡ f.unreachable)
    → fs ≡ frame ∷ below
    → frame.unreachable ≡ false
    → (frame' : CtrlFrame) × (below' : List CtrlFrame) × (modify fs l g ≡ frame' ∷ below')
      × (frame'.unreachable ≡ false)
reachable-modify fs zero g frame below h e r = (g frame, below, rw e refl, h frame ∙ r)
reachable-modify fs (suc l) g frame below h e r = (frame, modify below l g, rw e refl, r)

record_branch-IsReachable :
    (pc l arity : ℕ) (target : CtrlFrame) (ctx : Context)
    → IsReachable ctx
    → IsReachable (record_branch pc l arity target ctx)
unfolding record_branch push_slot
record_branch-IsReachable pc l arity target ctx r =
    let (frame, below, top, reachable) =
      reachable-modify ctx.ctrl_stack l _ r.frame r.below (λ f. refl) r.top r.reachable in
    record { frame = frame; below = below; top = top; reachable = reachable }

-- The record of a branch from `at` to `label`, where n operands are on the stack.
pub record IsRecorded (at n : ℕ) (label : CtrlFrame) (slot : JumpTable) : Type 0 where
  pub position : slot.pc ≡ u32 at
  pub carries : slot.arity ≡ length (label_types label)
  pub drops : slot.stack_offset + slot.arity + label.height ≡ n

-- The record that `record_branch` adds, where the operands it carries lie above the frame.
record_branch-IsRecorded :
    (at l : ℕ) (label : CtrlFrame) (ctx : Context)
    → length (label_types label) < 2 ^ 16
    → length ctx.val_stack < 2 ^ 32
    → length (label_types label) + label.height ≤ length ctx.val_stack
    → IsRecorded at (length ctx.val_stack) label (
        new_slot at
          (stack_offset_of ctx (u16 (length (label_types label))) label)
          (u16 (length (label_types label))))
unfolding stack_offset_of
record_branch-IsRecorded at l label ctx small fits above = record {
  position = refl;
  carries = omega arith;
  drops = omega arith;
}

-- Popping the label's types shows that they lie above the frame.
above_label :
    (at l : ℕ) (label : CtrlFrame) (ctx : Context)
    → HasFrames (length ctx.ctrl_stack) ctx
    → IsReachable ctx
    → get_elem? ctx.ctrl_stack l ≡ some label
    → Post
        (λ ctx'.
          (length (label_types label) + label.height ≤ length ctx.val_stack)
          × (ctx'.jt ≡ (record_branch at l (u16 (length (label_types label))) label ctx).jt))
        Unit
        (pop_vals
          (label_types label)
          (record_branch at l (u16 (length (label_types label))) label ctx))
unfolding record_branch push_slot
above_label at l label ctx h r e =
    let arity = u16 (length (label_types label)) in
    let ctx1 = record_branch at l arity label ctx in
    weaken
      (λ ctx' (m, n). (
        let low =
              FramesFit-at (length ctx'.val_stack) ctx1.ctrl_stack l _
                (get_elem-modify-same _ ctx.ctrl_stack l label e) m.0.frames in
            omega (arith, low, n),
        m.0.jt,
      ))
      (Post-both
        (pop_vals-Post (label_types label) ctx1
          (record_branch-HasFrames at l arity label _ ctx h).is_open)
        (pop_vals-length (label_types label) ctx1
          (record_branch-IsReachable at l arity label ctx r)))

-- The operands that a branch finds, behind the condition of a `br_if`.
abbrev pub operands_at : ℕ → Context → ℕ
operands_at opcode ctx =
    if opcode == op_br_if then length ctx.val_stack - 1 else length ctx.val_stack

-- The state behind the condition.
abbrev Behind : ℕ → Context → Context → Type 0
Behind opcode ctx ctx1 = (length ctx1.val_stack ≡ operands_at opcode ctx) × Moved ctx ctx1

condition-Behind :
    (opcode : ℕ) (ctx : Context)
    → IsOpen ctx
    → IsReachable ctx
    → Post
        (Behind opcode ctx)
        Unit
        (if opcode == op_br_if then pop_drop type_id_i32 ctx else ok ctx)
condition-Behind opcode ctx o r = elim (Bool-cases (opcode == op_br_if)) [
  | inl b ↦ rw b (
      weaken (λ ctx1 (n, m). (rw b (omega (arith, n)), m))
        (Post-both (pop_drop-length type_id_i32 ctx r) (pop_drop-Post type_id_i32 ctx o)))
  | inr b ↦ rw b (returns (rw b refl, (Operands-refl o, o)))
]

-- What the jump table has got.
abbrev Added : ℕ → Stream → CtrlFrame → Context → Context → Type 0
Added opcode imm label ctx ctx' =
    (slot : JumpTable) × (get_elem? ctx'.jt (length ctx.jt) ≡ some slot)
    × IsRecorded imm.p (operands_at opcode ctx) label slot

added :
    (opcode : ℕ) (imm : Stream) (lth : ℕ) (label : CtrlFrame) (ctx ctx1 ctx3 : Context)
    → Behind opcode ctx ctx1
    → length (label_types label) < 2 ^ 16
    → length ctx.val_stack < 2 ^ 32
    → length (label_types label) + label.height ≤ length ctx1.val_stack
    → ctx3.jt ≡ (record_branch imm.p lth (u16 (length (label_types label))) label ctx1).jt
    → Added opcode imm label ctx ctx3
unfolding record_branch push_slot
added opcode imm lth label ctx ctx1 ctx3 (n, m) small fits above jt =
    let below_word : length ctx1.val_stack < 2 ^ 32 = grind (arith, n) in
    let arity = u16 (length (label_types label)) in
    let slot = new_slot imm.p (stack_offset_of ctx1 arity label) arity in
    (
      slot,
      rw (jt, ← m.0.jt) (get_elem-append ctx1.jt slot),
      rw (← n) (record_branch-IsRecorded imm.p lth label ctx1 small below_word above),
    )

-- In reachable code, a `br` or a `br_if` that is accepted has added a record to the jump table with
-- its position and as many operands to carry as the label has types; the operands that it drops,
-- those that it carries and those below the label's frame are all that are on the stack. The label
-- has fewer than 2^16 types, and fewer than 2^32 operands are on the stack.
pub on_br_or_if-IsRecorded :
    (opcode : ℕ) (imm : Stream) (lth : ℕ) (label : CtrlFrame) (ctx ctx' : Context)
    → IsOpen ctx
    → IsReachable ctx
    → get_elem? ctx.ctrl_stack lth ≡ some label
    → length (label_types label) < 2 ^ 16
    → length ctx.val_stack < 2 ^ 32
    → on_br_or_if opcode imm lth ctx ≡ ok ctx'
    → (slot : JumpTable) × (get_elem? ctx'.jt (length ctx.jt) ≡ some slot)
      × IsRecorded imm.p (operands_at opcode ctx) label slot
unfolding on_br_or_if
on_br_or_if-IsRecorded opcode imm lth label ctx ctx' o r e small fits run =
    of_ok {P = Added opcode imm label ctx} _
      (Post-if (leb (length ctx.ctrl_stack) lth) _ _ (λ _. throws)
        (λ _. condition-Behind opcode ctx o r ⟫ λ ctx1 (n, m).
          frame_at-label lth ctx1 label (rw (m.0.ctrl) e) ⟫ λ target same. rw same (
            above_label imm.p lth label ctx1 (record { is_open = m.1; frames = refl })
              (still r m.0.ctrl) (rw (m.0.ctrl) e)
            ⟫ λ ctx2 (above, jt).
                Post-if (opcode == op_br) _ _
                  (λ _.
                    weaken
                      (λ ctx3 j.
                        added opcode imm lth label ctx ctx1 ctx3 (n, m) small fits above (j ∙ jt))
                      (set_unreachable-jt ctx2))
                  (λ _.
                    weaken
                      (λ ctx3 j.
                        added opcode imm lth label ctx ctx1 ctx3 (n, m) small fits above (j ∙ jt))
                      (push_vals-jt (label_types label) ctx2)))))
      run
