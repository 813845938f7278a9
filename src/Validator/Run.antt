-- ===== src/Validator/Run.antt =====
-- The runs of `decode_function` with the callbacks of src/runtime/validator.c, turn by turn.
use silverfir.Prelude.{
  ℕ, zero, suc, ◌+◌, ◌<◌, ◌≡◌, ◌⊎◌, inl, inr, refl, arith, List, [], ◌∷◌, length, Bool, true, false,
  Option, none, some,
}
use silverfir.Result.{Result, ok, err, fault, Result-cases}
use silverfir.Result.Post.{of_ok, of_fault}
use silverfir.Stream.{Stream, stream_from}
use silverfir.Module.{Func, Module}
use silverfir.Decoder.Loop.{decode_turn, decode_loop, decode_function}
use silverfir.Validator.Context.{Context, CtrlFrame}
use silverfir.Validator.Context.Invariant.{IsWellFormed, IsOpen}
use silverfir.Validator.Control.{on_decode_begin}
use silverfir.Validator.Link.{on_decode_end}
use silverfir.Validator.Callbacks.{validator_callbacks, start_context, report, validate_func}
use silverfir.Validator.Safety.Control.{on_decode_begin-Post}
use silverfir.Validator.Safety.{IsBadTurn, decode_turn-validator_callbacks}

-- The states at the head of `while (true)`, as long as the turns start with a frame.
pub data Reaches (mod' : Module) (f : Func) : Stream → Context → Type 0 where
  start :
      {ctx : Context}
      → on_decode_begin (start_context mod' f) ≡ ok ctx
      → Reaches mod' f (stream_from f.code) ctx
  next :
      {code pc : Stream} {ctx ctx' : Context}
      → Reaches mod' f code ctx
      → 0 < length ctx.ctrl_stack
      → decode_turn validator_callbacks mod' code ctx ≡ ok (false, pc, ctx')
      → Reaches mod' f pc ctx'

-- Where a turn may leave its vectors: the last frame is gone and there are bytes still, or the
-- instruction at hand has an immediate that the code does not guard against.
pub data IsLost (mod' : Module) (code : Stream) (ctx : Context) : Type 0 where
  no_frame : ctx.ctrl_stack ≡ [] → IsLost mod' code ctx
  bad_turn : IsBadTurn mod' code → IsLost mod' code ctx

frame_cases : (ctx : Context) → IsWellFormed ctx → (ctx.ctrl_stack ≡ []) ⊎ IsOpen ctx
frame_cases ctx v = split ctx.ctrl_stack refl
  where
    split : (fs : List CtrlFrame) → ctx.ctrl_stack ≡ fs → (ctx.ctrl_stack ≡ []) ⊎ IsOpen ctx
    split [] e = inl e
    split (frame ∷ below) e = inr (record { valid = v; has_frame = rw e (omega arith) })

turn-IsWellFormed :
    (mod' : Module) (code : Stream) (ctx : Context) (last : Bool) (pc : Stream) (ctx' : Context)
    → IsOpen ctx
    → decode_turn validator_callbacks mod' code ctx ≡ ok (last, pc, ctx')
    → IsWellFormed ctx'
turn-IsWellFormed mod' code ctx last pc ctx' o e =
    (of_ok _ (decode_turn-validator_callbacks mod' code ctx o) e).1

-- Every state that a run reaches is well formed: the operand stack is at least as high as the top
-- frame, the frames' heights fall, and the pending slots are records of the jump table.
pub Reaches-IsWellFormed :
    (mod' : Module) (f : Func) (code : Stream) (ctx : Context)
    → Reaches mod' f code ctx
    → IsWellFormed ctx
Reaches-IsWellFormed mod' f code ctx (start e) =
    (of_ok _ (on_decode_begin-Post {F = Unit} mod' f) e).valid
Reaches-IsWellFormed mod' f code ctx (next {code = code0} {ctx = ctx0} r h e) =
    turn-IsWellFormed mod' code0 ctx0 false code ctx
      (record { valid = Reaches-IsWellFormed mod' f code0 ctx0 r; has_frame = h }) e

-- A fault of the loop is a fault of one of its turns.
decode_loop-fault :
    (mod' : Module) (f : Func) (fuel : ℕ) (code : Stream) (ctx : Context)
    → Reaches mod' f code ctx
    → decode_loop validator_callbacks mod' fuel code ctx ≡ some fault
    → (code' : Stream) × (ctx' : Context) × Reaches mod' f code' ctx' × IsLost mod' code' ctx'
unfolding decode_loop on_decode_end
decode_loop-fault mod' f zero code ctx r e = cc
decode_loop-fault mod' f (suc fuel) code ctx r e =
    elim (frame_cases ctx (Reaches-IsWellFormed mod' f code ctx r)) [
      | inl h ↦ (code, ctx, r, no_frame h)
      | inr o ↦ elim (Result-cases (decode_turn validator_callbacks mod' code ctx)) [
        | inl ((true, pc, ctx1), t) ↦ let e1 = rw (t, decode_loop) at e in cc
        | inl ((false, pc, ctx1), t) ↦
            decode_loop-fault mod' f fuel pc ctx1 (next r o.has_frame t) (rw (t, decode_loop) at e)
        | inr (inl (x, t)) ↦ let e1 = rw (t, decode_loop) at e in cc
        | inr (inr t) ↦ (
          code,
          ctx,
          r,
          bad_turn (of_fault _ (decode_turn-validator_callbacks mod' code ctx o) t),
        )
      ]
    ]

report_fault : (d : Option (Result Context)) → report d ≡ some fault → d ≡ some fault
report_fault none e = cc
report_fault (some (ok ctx)) e = cc
report_fault (some (err x)) e = cc
report_fault (some fault) e = refl

-- Validation of a function reads or writes outside its vectors only where a run reaches a state in
-- which bytes are left behind the end of the last frame, or the instruction at hand is a `br_table`
-- whose number of labels wraps around to 0 or a block of a type that `s_block_types` does not have.
pub validate_func-fault :
    (mod' : Module) (f : Func)
    → validate_func mod' f ≡ some fault
    → (code : Stream) × (ctx : Context) × Reaches mod' f code ctx × IsLost mod' code ctx
unfolding validate_func decode_function
validate_func-fault mod' f e = elim (Result-cases (on_decode_begin (start_context mod' f))) [
  | inl (ctx, b) ↦
      decode_loop-fault mod' f (length f.code + 1) (stream_from f.code) ctx (start b)
        (rw (b, decode_function) at (report_fault _ e))
  | inr (inl (x, b)) ↦ let e1 = rw (b, decode_function) at (report_fault _ e) in cc
  | inr (inr b) ↦ absurd (of_fault _ (on_decode_begin-Post {F = ⊥} mod' f) b)
]
