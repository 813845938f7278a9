-- ===== src/Validator/Context/Exact.antt =====
-- In reachable code, `pop_vals_to_vec` of src/runtime/validator.c pops what it is asked for.
use silverfir.Prelude.{
  suc, ◌≡◌, ◌∙◌, ap, inl, inr, refl, arith, true, false, List, [], ◌∷◌, ◌++◌, reverse, length, ◌==◌,
  ◌!=◌, ◌&&◌, not, Bool-cases,
}
use silverfir.Result.{ok}
use silverfir.Result.Post.{Post, returns, throws, Post-if, Post-of, of_ok, ◌⟫◌}
use silverfir.Format.{TypeId, type_id_ref, type_id_unknown, is_ref}
use silverfir.Validator.Context.{
  CtrlFrame, Context, back_frame, pop_val, pop_val_expect, pop_each, pop_vals_to_vec,
}

-- The top frame is reachable.
pub record IsReachable (ctx : Context) : Type 0 where
  pub frame : CtrlFrame
  pub below : List CtrlFrame
  pub top : ctx.ctrl_stack ≡ frame ∷ below
  pub reachable : frame.unreachable ≡ false

-- An operand that serves where a type is expected.
pub data Serves (expected actual : TypeId) : Type 0 where
  exact : actual ≡ expected → Serves expected actual
  any_ref : expected ≡ type_id_ref → is_ref actual ≡ true → Serves expected actual
  unknown_actual : actual ≡ type_id_unknown → Serves expected actual
  unknown_expected : expected ≡ type_id_unknown → Serves expected actual

abbrev pub AllServe : List TypeId → List TypeId → Type 0
AllServe [] [] = Unit
AllServe (v ∷ vals) (t ∷ popped) = Serves v t × AllServe vals popped
AllServe _ _ = ⊥

-- The operand that was popped, and nothing else, is gone.
abbrev pub Popped1 : Context → TypeId × Context → Type 0
Popped1 ctx (t, ctx') = (ctx.val_stack ≡ t ∷ ctx'.val_stack) × (ctx'.ctrl_stack ≡ ctx.ctrl_stack)

-- The test of `pop_val_expect` lets through what serves.
Serves-by_test :
    (v t : TypeId)
    → (t != v && t != type_id_unknown && v != type_id_unknown && not (v == type_id_ref && is_ref t))
      ≡ false
    → Serves v t
Serves-by_test v t h = elim (Bool-cases (t != v)) [
  | inr same ↦ exact (ground arith)
  | inl other ↦ elim (Bool-cases (t != type_id_unknown)) [
    | inr same ↦ unknown_actual (ground arith)
    | inl known ↦ elim (Bool-cases (v != type_id_unknown)) [
      | inr same ↦ unknown_expected (ground arith)
      | inl wanted ↦ any_ref (ground arith) (ground arith)
    ]
  ]
]

module _ (ctx : Context) (r : IsReachable ctx) where
  pop_val-Popped1 : (x : TypeId × Context) → pop_val ctx ≡ ok x → Popped1 ctx x
  unfolding pop_val back_frame
  pop_val-Popped1 x e = (ground (arith, r.top, r.reachable), ground (arith, r.top, r.reachable))

  pop_val-exact : Post (Popped1 ctx) Unit (pop_val ctx)
  pop_val-exact = Post-of (pop_val ctx) pop_val-Popped1 (λ f. tt)

  pub pop_val_expect-exact :
      (v : TypeId) → Post (λ x. Popped1 ctx x × Serves v x.0) Unit (pop_val_expect v ctx)
  unfolding pop_val_expect
  pop_val_expect-exact v = pop_val-exact ⟫ λ (t, ctx1) p.
      Post-if
        (t != v
          && t != type_id_unknown
          && v != type_id_unknown
          && not (v == type_id_ref && is_ref t))
        _ _ (λ _. throws) (λ h. returns (p, Serves-by_test v t h))

-- What a sequence of pops takes from the stack.
abbrev pub Taken : List TypeId → Context → List TypeId × Context → Type 0
Taken vals ctx (popped, ctx') =
    (ctx.val_stack ≡ popped ++ ctx'.val_stack)
    × AllServe vals popped
    × (ctx'.ctrl_stack ≡ ctx.ctrl_stack)

pub still :
    {ctx ctx' : Context} → IsReachable ctx → ctx'.ctrl_stack ≡ ctx.ctrl_stack → IsReachable ctx'
still r e = record { frame = r.frame; below = r.below; top = e ∙ r.top; reachable = r.reachable }

pub pop_each-exact :
    (vals : List TypeId) (ctx : Context)
    → IsReachable ctx
    → Post (Taken vals ctx) Unit (pop_each vals ctx)
unfolding pop_each
pop_each-exact [] ctx r = returns (refl, tt, refl)
pop_each-exact (v ∷ vals) ctx r = pop_val_expect-exact ctx r v ⟫ λ (t, ctx1) (p, s).
    pop_each-exact vals ctx1 (still r p.1) ⟫ λ (ts, ctx2) (stack, serve, ctrl).
    returns (p.0 ∙ ap (λ (rest : List TypeId). t ∷ rest) stack, (s, serve), ctrl ∙ p.1)

-- In reachable code, popping a list of types that succeeds takes as many operands off the stack,
-- the last type's first, each of which serves where its type is expected, and leaves the rest.
pub pop_vals_to_vec-exact :
    (vals popped : List TypeId) (ctx ctx' : Context)
    → IsReachable ctx
    → pop_vals_to_vec vals ctx ≡ ok (popped, ctx')
    → (ctx.val_stack ≡ popped ++ ctx'.val_stack) × AllServe (reverse vals) popped
unfolding pop_vals_to_vec
pop_vals_to_vec-exact vals popped ctx ctx' r e =
    let (stack, serve, ctrl) = of_ok _ (pop_each-exact (reverse vals) ctx r) e in (stack, serve)

pub AllServe-length :
    (vals popped : List TypeId) → AllServe vals popped → length popped ≡ length vals
AllServe-length [] [] a = refl
AllServe-length [] (t ∷ popped) a = absurd a
AllServe-length (v ∷ vals) [] a = absurd a
AllServe-length (v ∷ vals) (t ∷ popped) a = ap suc (AllServe-length vals popped a.1)
