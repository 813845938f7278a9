-- ===== src/Validator/Safety/Numeric.antt =====
-- The handlers of src/runtime/validator.c of the numeric instructions.
use silverfir.Prelude.{ℕ}
use silverfir.Result.Post.{Post, throws, Post-if}
use silverfir.Validator.Context.{Context}
use silverfir.Validator.Context.Invariant.{IsOpen, Moved}
use silverfir.Validator.Safety.Operand.{pop1_push-Post, pop2_push-Post}
use silverfir.Validator.Numeric.{
  on_itestop, on_iunop, on_irelop, on_ibinop, on_funop, on_frelop, on_fbinop, on_truncop,
  on_convertop, on_rankop, on_reinterpretop, on_extendop,
}
use silverfir.Validator.Bulk.{on_trunc_sat}

module _ {F : Type 0} where
  pub on_iunop-Post :
      (opcode : ℕ) (ctx : Context) → IsOpen ctx → Post (Moved ctx) F (on_iunop opcode ctx)
  unfolding on_iunop
  on_iunop-Post opcode ctx o = search (Post-if, throws, pop1_push-Post, o) depth 20

  pub on_irelop-Post :
      (opcode : ℕ) (ctx : Context) → IsOpen ctx → Post (Moved ctx) F (on_irelop opcode ctx)
  unfolding on_irelop
  on_irelop-Post opcode ctx o = search (Post-if, throws, pop2_push-Post, o) depth 20

  pub on_ibinop-Post :
      (opcode : ℕ) (ctx : Context) → IsOpen ctx → Post (Moved ctx) F (on_ibinop opcode ctx)
  unfolding on_ibinop
  on_ibinop-Post opcode ctx o = search (Post-if, throws, pop2_push-Post, o) depth 20

  pub on_funop-Post :
      (opcode : ℕ) (ctx : Context) → IsOpen ctx → Post (Moved ctx) F (on_funop opcode ctx)
  unfolding on_funop
  on_funop-Post opcode ctx o = search (Post-if, throws, pop1_push-Post, o) depth 20

  pub on_frelop-Post :
      (opcode : ℕ) (ctx : Context) → IsOpen ctx → Post (Moved ctx) F (on_frelop opcode ctx)
  unfolding on_frelop
  on_frelop-Post opcode ctx o = search (Post-if, throws, pop2_push-Post, o) depth 20

  pub on_fbinop-Post :
      (opcode : ℕ) (ctx : Context) → IsOpen ctx → Post (Moved ctx) F (on_fbinop opcode ctx)
  unfolding on_fbinop
  on_fbinop-Post opcode ctx o = search (Post-if, throws, pop2_push-Post, o) depth 20

  pub on_truncop-Post :
      (opcode : ℕ) (ctx : Context) → IsOpen ctx → Post (Moved ctx) F (on_truncop opcode ctx)
  unfolding on_truncop
  on_truncop-Post opcode ctx o = search (Post-if, throws, pop1_push-Post, o) depth 20

  pub on_convertop-Post :
      (opcode : ℕ) (ctx : Context) → IsOpen ctx → Post (Moved ctx) F (on_convertop opcode ctx)
  unfolding on_convertop
  on_convertop-Post opcode ctx o = search (Post-if, throws, pop1_push-Post, o) depth 20

  pub on_rankop-Post :
      (opcode : ℕ) (ctx : Context) → IsOpen ctx → Post (Moved ctx) F (on_rankop opcode ctx)
  unfolding on_rankop
  on_rankop-Post opcode ctx o = search (Post-if, throws, pop1_push-Post, o) depth 20

  pub on_reinterpretop-Post :
      (opcode : ℕ) (ctx : Context) → IsOpen ctx → Post (Moved ctx) F (on_reinterpretop opcode ctx)
  unfolding on_reinterpretop
  on_reinterpretop-Post opcode ctx o = search (Post-if, throws, pop1_push-Post, o) depth 20

  pub on_extendop-Post :
      (opcode : ℕ) (ctx : Context) → IsOpen ctx → Post (Moved ctx) F (on_extendop opcode ctx)
  unfolding on_extendop
  on_extendop-Post opcode ctx o = search (Post-if, throws, pop1_push-Post, o) depth 20

  pub on_itestop-Post :
      (opcode : ℕ) (ctx : Context) → IsOpen ctx → Post (Moved ctx) F (on_itestop opcode ctx)
  unfolding on_itestop
  on_itestop-Post opcode ctx o = search (Post-if, pop1_push-Post, o) depth 20

  pub on_trunc_sat-Post :
      (opcode : ℕ) (ctx : Context) → IsOpen ctx → Post (Moved ctx) F (on_trunc_sat opcode ctx)
  unfolding on_trunc_sat
  on_trunc_sat-Post opcode ctx o = search (Post-if, throws, pop1_push-Post, o) depth 20
