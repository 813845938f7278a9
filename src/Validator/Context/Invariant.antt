-- ===== src/Validator/Context/Invariant.antt =====
-- The invariant of the validator's state, and how the helpers on the operand stack keep it.
use silverfir.Prelude.{ℕ, ◌≤◌, ◌<◌, ◌≡◌, ◌≢◌, refl, ◌∙◌, arith, List, [], ◌∷◌, length, All, reverse}
use silverfir.Result.{ok, fault}
use silverfir.Result.Post.{Post, returns, throws, ◌⟫◌, Post-of_ok, Post-if, weaken}
use silverfir.Format.{TypeId}
use silverfir.Validator.Context.{
  CtrlFrame, Context, push_val, push_vals, back_frame, pop_val, pop_val_expect, pop_drop, pop_each,
  pop_vals_to_vec, pop_vals,
}

-- The heights of the frames fall from the top down, and the top one is within the n operands.
abbrev pub FramesFit : ℕ → List CtrlFrame → Type 0
FramesFit n [] = Unit
FramesFit n (frame ∷ below) = (frame.height ≤ n) × FramesFit frame.height below

-- A frame's pending slots are records of the jump table.
abbrev pub SlotsFit : ℕ → CtrlFrame → Type 0
SlotsFit n frame = All (λ i. i < n) frame.pending_jt_slots

pub record IsWellFormed (ctx : Context) : Type 0 where
  pub frames : FramesFit (length ctx.val_stack) ctx.ctrl_stack
  pub slots : All (SlotsFit (length ctx.jt)) ctx.ctrl_stack

-- A well-formed state with a frame: the function has not ended.
pub record IsOpen (ctx : Context) : Type 0 where
  pub valid : IsWellFormed ctx
  pub has_frame : 0 < length ctx.ctrl_stack

-- What an operation on operands leaves alone.
pub record Operands (ctx ctx' : Context) : Type 0 where
  pub ctrl : ctx'.ctrl_stack ≡ ctx.ctrl_stack
  pub jt : ctx'.jt ≡ ctx.jt
  pub frames : FramesFit (length ctx'.val_stack) ctx.ctrl_stack

pub FramesFit-mono : (n m : ℕ) (fs : List CtrlFrame) → n ≤ m → FramesFit n fs → FramesFit m fs
FramesFit-mono n m [] h f = tt
FramesFit-mono n m (frame ∷ below) h f = (omega arith, f.1)

pop_val-Operands :
    (ctx : Context) (x : TypeId × Context)
    → pop_val ctx ≡ ok x
    → FramesFit (length ctx.val_stack) ctx.ctrl_stack
    → Operands ctx x.1
unfolding pop_val back_frame
pop_val-Operands ctx x e f = ground arith

pop_val-ne-fault :
    (ctx : Context)
    → FramesFit (length ctx.val_stack) ctx.ctrl_stack
    → 0 < length ctx.ctrl_stack
    → pop_val ctx ≢ fault
unfolding pop_val back_frame
pop_val-ne-fault ctx f h = ground arith

Operands-IsWellFormed :
    {ctx ctx' : Context} → IsWellFormed ctx → Operands ctx ctx' → IsWellFormed ctx'
Operands-IsWellFormed v k = record {
  frames = rw (k.ctrl) k.frames;
  slots = rw (k.ctrl, k.jt) v.slots;
}

pub Operands-IsOpen : {ctx ctx' : Context} → IsOpen ctx → Operands ctx ctx' → IsOpen ctx'
Operands-IsOpen o k = record {
  valid = Operands-IsWellFormed o.valid k;
  has_frame = rw (k.ctrl) o.has_frame;
}

pub Operands-trans : {a b c : Context} → Operands a b → Operands b c → Operands a c
Operands-trans h k = record {
  ctrl = k.ctrl ∙ h.ctrl;
  jt = k.jt ∙ h.jt;
  frames = rw (h.ctrl) at k.frames;
}

pub Operands-refl : {ctx : Context} → IsOpen ctx → Operands ctx ctx
Operands-refl o = record { ctrl = refl; jt = refl; frames = o.valid.frames }

-- The state after an operation on operands: still open, with the same frames.
abbrev pub Moved : Context → Context → Type 0
Moved ctx ctx' = Operands ctx ctx' × IsOpen ctx'

module _ {F : Type 0} where
  pub pop_val-Post : (ctx : Context) → IsOpen ctx → Post (λ x. Moved ctx x.1) F (pop_val ctx)
  pop_val-Post ctx o =
      Post-of_ok (pop_val ctx) (pop_val-ne-fault ctx o.valid.frames o.has_frame)
        (λ x e. let k = pop_val-Operands ctx x e o.valid.frames in (k, Operands-IsOpen o k))

  pub pop_val_expect-Post :
      (t : TypeId) (ctx : Context) → IsOpen ctx → Post (λ x. Moved ctx x.1) F (pop_val_expect t ctx)
  unfolding pop_val_expect
  pop_val_expect-Post t ctx o =
      pop_val-Post ctx o ⟫ λ (actual, ctx') m. search (Post-if, throws, returns, m)

  pub pop_drop-Post :
      (t : TypeId) (ctx : Context) → IsOpen ctx → Post (Moved ctx) F (pop_drop t ctx)
  unfolding pop_drop
  pop_drop-Post t ctx o = pop_val_expect-Post t ctx o ⟫ λ (_, ctx') m. returns m

  pop_each-Post :
      (vals : List TypeId) (ctx : Context)
      → IsOpen ctx
      → Post (λ x. Moved ctx x.1) F (pop_each vals ctx)
  unfolding pop_each
  pop_each-Post [] ctx o = returns (Operands-refl o, o)
  pop_each-Post (v ∷ vals) ctx o = pop_val_expect-Post v ctx o ⟫ λ (t, ctx1) m.
      pop_each-Post vals ctx1 m.1 ⟫ λ (ts, ctx2) n. returns (Operands-trans m.0 n.0, n.1)

  pub pop_vals_to_vec-Post :
      (vals : List TypeId) (ctx : Context)
      → IsOpen ctx
      → Post (λ x. Moved ctx x.1) F (pop_vals_to_vec vals ctx)
  unfolding pop_vals_to_vec
  pop_vals_to_vec-Post vals ctx o = pop_each-Post (reverse vals) ctx o

  pub pop_vals-Post :
      (vals : List TypeId) (ctx : Context) → IsOpen ctx → Post (Moved ctx) F (pop_vals vals ctx)
  unfolding pop_vals
  pop_vals-Post vals ctx o = pop_vals_to_vec-Post vals ctx o ⟫ λ (_, ctx') m. returns m

  -- Pushing needs no frame.
  push_val-Operands :
      (t : TypeId) (ctx : Context)
      → FramesFit (length ctx.val_stack) ctx.ctrl_stack
      → Post (Operands ctx) F (push_val t ctx)
  unfolding push_val
  push_val-Operands t ctx f = returns (record {
    ctrl = refl;
    jt = refl;
    frames = FramesFit-mono _ _ ctx.ctrl_stack (omega arith) f;
  })

  push_vals-Operands :
      (vals : List TypeId) (ctx : Context)
      → FramesFit (length ctx.val_stack) ctx.ctrl_stack
      → Post (Operands ctx) F (push_vals vals ctx)
  unfolding push_vals
  push_vals-Operands [] ctx f = returns (record { ctrl = refl; jt = refl; frames = f })
  push_vals-Operands (v ∷ vals) ctx f = push_val-Operands v ctx f ⟫ λ ctx1 m.
      weaken (λ ctx2 n. Operands-trans m n) (push_vals-Operands vals ctx1 (rw (m.ctrl) m.frames))

  pub push_val-Post :
      (t : TypeId) (ctx : Context) → IsOpen ctx → Post (Moved ctx) F (push_val t ctx)
  push_val-Post t ctx o =
      weaken (λ ctx' k. (k, Operands-IsOpen o k)) (push_val-Operands t ctx o.valid.frames)

  pub push_vals-Post :
      (vals : List TypeId) (ctx : Context) → IsOpen ctx → Post (Moved ctx) F (push_vals vals ctx)
  push_vals-Post vals ctx o =
      weaken (λ ctx' k. (k, Operands-IsOpen o k)) (push_vals-Operands vals ctx o.valid.frames)

  pub push_vals-IsWellFormed :
      (vals : List TypeId) (ctx : Context)
      → IsWellFormed ctx
      → Post IsWellFormed F (push_vals vals ctx)
  push_vals-IsWellFormed vals ctx v =
      weaken (λ ctx' k. Operands-IsWellFormed v k) (push_vals-Operands vals ctx v.frames)
