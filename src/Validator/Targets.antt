-- ===== src/Validator/Targets.antt =====
-- Where the branches of src/runtime/validator.c land: `on_end` gives each branch to the frame that
-- ends the offset of its target.
use silverfir.Prelude.{
  ℕ, ◌+◌, ◌-◌, ◌^◌, ◌≡◌, inl, inr, refl, arith, List, [], ◌∷◌, All, Option, none, some, get_elem?,
  get_elem-modify, get_elem-modify-same, u32, sub32,
}
use silverfir.Result.{Result, ok, err, fault}
use silverfir.Result.Post.{Post, returns, throws, faults, of_ok, ◌⟫◌, weaken}
use silverfir.Format.{TypeId}
use silverfir.Stream.{Stream}
use silverfir.Module.{JumpTable}
use silverfir.Validator.Context.{
  bt_func, bt_block, bt_loop, bt_if, bt_else, CtrlFrame, Context, push_val, push_vals, pop_vals,
  pop_ctrl, set_target,
}
use silverfir.Validator.Control.{target_of, resolve_slots, on_end}

-- The record at the index lands at the position `land`.
abbrev pub Landed : ℕ → List JumpTable → ℕ → Type 0
Landed land jt i =
    (slot : JumpTable) → get_elem? jt i ≡ some slot → u32 (slot.pc + slot.target_offset) ≡ land

-- After one branch is resolved, it lands where it should, and so does what did before.
module _ (land : ℕ) (target : JumpTable → ℕ)
    (lands : (slot : JumpTable) → u32 (slot.pc + target slot) ≡ land) where
  abbrev Landing : List ℕ → Context → Context → Type 0
  Landing slots ctx ctx' =
      All (Landed land ctx'.jt) slots × ((i : ℕ) → Landed land ctx.jt i → Landed land ctx'.jt i)

  aimed-Landed :
      (slot slot' : JumpTable)
      → slot' ≡ record slot { target_offset = target slot }
      → u32 (slot'.pc + slot'.target_offset) ≡ land
  aimed-Landed slot slot' p = rw p (lands slot)

  set_target-Landing :
      (i : ℕ) (ctx : Context) → Post (Landing (i ∷ []) ctx) Unit (set_target target i ctx)
  unfolding set_target
  set_target-Landing i ctx = go (get_elem? ctx.jt i) refl
    where
      go :
          (o : Option JumpTable)
          → get_elem? ctx.jt i ≡ o
          → Post (Landing (i ∷ []) ctx) Unit (set_target target i ctx)
      go none e = rw (e, set_target) (faults tt)
      go (some slot) e =
          rw (e, set_target)
            (returns (
              (
                λ slot' p. aimed-Landed slot slot' (
                    let q =
                      get_elem-modify-same (λ s. record s { target_offset = target slot }) ctx.jt i
                        slot e in
                    cc),
                tt,
              ),
              λ j h slot' p.
                  elim (get_elem-modify (λ s. record s { target_offset = target slot }) ctx.jt i j
                    slot' p) [ inl (old, q, r) ↦ aimed-Landed slot slot' cc | inr q ↦ h slot' q ],
            ))

  resolve_slots-Landing :
      (slots : List ℕ) (ctx : Context)
      → Post (Landing slots ctx) Unit (resolve_slots target slots ctx)
  unfolding resolve_slots
  resolve_slots-Landing [] ctx = returns (tt, λ j h. h)
  resolve_slots-Landing (i ∷ slots) ctx = set_target-Landing i ctx ⟫ λ ctx1 p.
      weaken (λ ctx2 q. ((q.1 i p.0.0, q.0), λ j h. q.1 j (p.1 j h)))
        (resolve_slots-Landing slots ctx1)

-- A branch to a loop lands behind the loop's opcode, one to the function on the last `end`, and
-- any other behind the `end`.
abbrev pub landing : CtrlFrame → ℕ → ℕ
landing cf pc_offset = elim cf.type [
  | bt_loop ↦ u32 cf.pc
  | bt_func ↦ u32 (pc_offset + (2 ^ 32 - 1))
  | _ ↦ u32 pc_offset
]

sub32_lands : (a b : ℕ) → u32 (b + sub32 a b) ≡ u32 a
sub32_lands a b = omega arith

-- `target_of` by the type of the frame.
target_of-landing :
    (cf : CtrlFrame) (pc_offset : ℕ) (slot : JumpTable)
    → u32 (slot.pc + target_of cf pc_offset slot) ≡ landing cf pc_offset
target_of-landing cf pc_offset slot =
    elim cf.type
      as (λ t.
        u32 (slot.pc + target_of (record cf { type = t }) pc_offset slot)
        ≡ landing (record cf { type = t }) pc_offset) [
          | bt_loop ↦ omega arith
          | bt_func ↦ omega arith
          | bt_block ↦ omega arith
          | bt_if ↦ omega arith
          | bt_else ↦ omega arith
        ]

pub push_vals-jt :
    (vals : List TypeId) (ctx : Context) → Post (λ ctx'. ctx'.jt ≡ ctx.jt) Unit (push_vals vals ctx)
unfolding push_vals push_val
push_vals-jt [] ctx = returns refl
push_vals-jt (v ∷ vals) ctx = weaken (λ ctx' e. e) (push_vals-jt vals _)

anything : {A : Type 0} (r : Result A) → Post (λ _. Unit) Unit r
anything (ok a) = returns tt
anything (err e) = throws
anything fault = faults tt

pop_ctrl-top :
    (ctx : Context) (cf : CtrlFrame) (below : List CtrlFrame)
    → ctx.ctrl_stack ≡ cf ∷ below
    → Post (λ x. x.0 ≡ cf) Unit (pop_ctrl ctx)
unfolding pop_ctrl
pop_ctrl-top ctx cf below e =
    rw (e, pop_ctrl) (anything (pop_vals cf.end_types ctx) ⟫ λ ctx' _. returns refl)

-- When `on_end` has ended a frame, every branch that was pending on it lands where `landing` says:
-- the position of the branch and the offset in its record add up to it on 32 bits.
pub on_end-landing :
    (imm : Stream) (ctx ctx' : Context) (cf : CtrlFrame) (below : List CtrlFrame)
    → ctx.ctrl_stack ≡ cf ∷ below
    → on_end imm ctx ≡ ok ctx'
    → All (Landed (landing cf (u32 imm.p)) ctx'.jt) cf.pending_jt_slots
unfolding on_end
on_end-landing imm ctx ctx' cf below top e =
    of_ok _
      (pop_ctrl-top ctx cf below top ⟫ λ (frame, ctx1) same.
        resolve_slots-Landing _ _ (target_of-landing frame (u32 imm.p)) frame.pending_jt_slots ctx1
        ⟫ λ ctx2 l.
            weaken {Q = λ c. All (Landed (landing cf (u32 imm.p)) c.jt) cf.pending_jt_slots}
              (λ ctx3 j. rw (j, ← same) l.0) (push_vals-jt frame.end_types ctx2))
      e
