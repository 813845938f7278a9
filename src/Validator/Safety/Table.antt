-- ===== src/Validator/Safety/Table.antt =====
-- The tables of labels of `on_br_table`, src/runtime/validator.c.
use silverfir.Prelude.{
  ℕ, zero, suc, ◌+◌, ◌-◌, ◌^◌, ◌⊎◌, ◌<◌, ◌≡◌, arith, refl, leb, ◌==◌, ◌!=◌, length, u32, Option,
  none, some, if◌then◌else◌, inl, inr, Bool-cases,
}
use native.Mathlib.Decide.{dec_lt}
use silverfir.Result.{ok, ◌>>=◌, Result-cases}
use silverfir.Result.Post.{Post, returns, throws, faults, Post-if, Post-with, ◌⟫◌, weaken}
use silverfir.Stream.{Stream}
use silverfir.Stream.Leb.{read_vu32}
use silverfir.Stream.Leb.Bounds.{read_vu32-lt}
use silverfir.Stream.Moves.{read_vu32-Post}
use silverfir.Validator.Context.{Context, label_types, pop_vals, set_unreachable}
use silverfir.Validator.Context.Invariant.{
  IsOpen, pop_drop-Post, pop_vals-Post, pop_vals_to_vec-Post, push_vals-Post,
}
use silverfir.Validator.Context.Frames.{set_unreachable-Post, frame_at-Post}
use silverfir.Validator.Safety.Branch.{HasFrames, Moved-HasFrames, record_branch-HasFrames}
use silverfir.Validator.Branch.{
  check_labels, add_target, add_targets, last_frame, last_arity, on_br_table,
}

-- A round of the first pass that succeeds.
check_labels-step :
    (rounds i table_len : ℕ) (imm : Stream) (m : Option ℕ) (ctx : Context) (x : Stream × Option ℕ)
    (l : ℕ) (imm' : Stream)
    → read_vu32 imm ≡ ok (l, imm')
    → check_labels (suc rounds) i table_len imm m ctx ≡ ok x
    → (l < length ctx.ctrl_stack)
      × (check_labels rounds (i + 1) table_len imm' (if i == table_len then some l else m) ctx
          ≡ ok x)
unfolding check_labels
check_labels-step rounds i table_len imm m ctx x l imm' r e =
    let e1 = rw (r, check_labels) at e in
    elim (Bool-cases (leb (length ctx.ctrl_stack) l)) [
      | inl p ↦ let e2 = rw p at e1 in cc
      | inr p ↦ (ground arith, rw p at e1)
    ]

-- The last label of the table, and that it is in range.
abbrev Labelled : ℕ → Option ℕ → Type 0
Labelled n m = (l : ℕ) × (m ≡ some l) × (l < n)

check_labels-read :
    (rounds i table_len : ℕ) (imm : Stream) (m : Option ℕ) (ctx : Context) (x : Stream × Option ℕ)
    → check_labels (suc rounds) i table_len imm m ctx ≡ ok x
    → (l : ℕ) × (imm' : Stream) × (read_vu32 imm ≡ ok (l, imm'))
unfolding check_labels
check_labels-read rounds i table_len imm m ctx x e = elim (Result-cases (read_vu32 imm)) [
  | inl ((l, imm'), r) ↦ (l, imm', r)
  | inr (inl (y, r)) ↦ let e1 = rw (r, check_labels) at e in cc
  | inr (inr r) ↦ let e1 = rw (r, check_labels) at e in cc
]

last_round :
    (i table_len : ℕ) (imm : Stream) (l : ℕ) (m : Option ℕ) (ctx : Context) (x : Stream × Option ℕ)
    → i ≡ table_len
    → check_labels zero (i + 1) table_len imm (if i == table_len then some l else m) ctx ≡ ok x
    → x.1 ≡ some l
unfolding check_labels
last_round i table_len imm l m ctx x h e = ground arith

-- The read of `table_len` is such that `table_len + 1` wraps around to no label.
pub record IsNullTable (imm : Stream) : Type 0 where
  pub table_len : ℕ
  pub after : Stream
  pub read : read_vu32 imm ≡ ok (table_len, after)
  pub wraps : table_len ≡ 2 ^ 32 - 1

check_labels-Labelled :
    (rounds i table_len : ℕ) (imm : Stream) (m : Option ℕ) (ctx : Context) (x : Stream × Option ℕ)
    → i + rounds ≡ table_len
    → check_labels (suc rounds) i table_len imm m ctx ≡ ok x
    → Labelled (length ctx.ctrl_stack) x.1
check_labels-Labelled zero i table_len imm m ctx x h e =
    let (l, imm', r) = check_labels-read zero i table_len imm m ctx x e in
    let q = check_labels-step zero i table_len imm m ctx x l imm' r e in
    (l, last_round i table_len imm' l m ctx x (omega arith) q.1, q.0)
check_labels-Labelled (suc rounds) i table_len imm m ctx x h e =
    let (l, imm', r) = check_labels-read (suc rounds) i table_len imm m ctx x e in
    let q = check_labels-step (suc rounds) i table_len imm m ctx x l imm' r e in
    check_labels-Labelled rounds (i + 1) table_len imm' _ ctx x (omega arith) q.1

module _ {F : Type 0} where
  add_target-Post :
      (pc arity l n : ℕ) (ctx : Context)
      → l < n
      → HasFrames n ctx
      → Post (HasFrames n) F (add_target pc arity l ctx)
  unfolding add_target
  add_target-Post pc arity l n ctx lt h = frame_at-Post l ctx (rw (h.frames) lt) ⟫ λ target _.
      Post-if (arity != length (label_types target)) _ _ (λ _. throws)
        (λ _.
          let b = record_branch-HasFrames pc l arity target n ctx h in
          pop_vals_to_vec-Post _ _ b.is_open ⟫ λ (popped, ctx1) m.
          let h1 = Moved-HasFrames b m in
          weaken (λ ctx2 m2. Moved-HasFrames h1 m2) (push_vals-Post _ ctx1 h1.is_open))

  -- The second pass reads the labels that the first one found in range.
  add_targets-Post :
      (rounds i table_len : ℕ) (imm : Stream) (m : Option ℕ) (ctx0 : Context)
      (x : Stream × Option ℕ) (pc arity : ℕ) (ctx : Context)
      → check_labels rounds i table_len imm m ctx0 ≡ ok x
      → HasFrames (length ctx0.ctrl_stack) ctx
      → Post (HasFrames (length ctx0.ctrl_stack)) F (add_targets rounds imm pc arity ctx)
  unfolding add_targets
  add_targets-Post zero i table_len imm m ctx0 x pc arity ctx e h = returns h
  add_targets-Post (suc rounds) i table_len imm m ctx0 x pc arity ctx e h =
      Post-with (read_vu32 imm) (read_vu32-Post imm) ⟫ λ (l, imm') (_, r).
      let q = check_labels-step rounds i table_len imm m ctx0 x l imm' r e in
      add_target-Post pc arity l _ ctx q.0 h ⟫ λ ctx1 h1.
      add_targets-Post rounds (i + 1) table_len imm' _ ctx0 x pc arity ctx1 q.1 h1

last_arity-Post :
    {F : Type 0} (m : Option ℕ) (ctx : Context) (n : ℕ)
    → Labelled n m
    → HasFrames n ctx
    → Post (λ _. Unit) F (last_arity m ctx)
unfolding last_arity
last_arity-Post m ctx n (l, e, lt) h =
    rw (e, last_arity) (frame_at-Post l ctx (rw (h.frames) lt) ⟫ λ frame _. returns tt)

last_frame-Post :
    {F : Type 0} (m : Option ℕ) (ctx : Context) (n : ℕ)
    → Labelled n m
    → HasFrames n ctx
    → Post (λ _. Unit) F (last_frame m ctx)
unfolding last_frame
last_frame-Post m ctx n (l, e, lt) h = rw (e, last_frame) (frame_at-Post l ctx (rw (h.frames) lt))

-- A table has a label, unless the number of its labels wraps around.
labels_cases :
    (imm : Stream) (table_len : ℕ) (after : Stream)
    → read_vu32 imm ≡ ok (table_len, after)
    → (IsNullTable imm × (u32 (table_len + 1) ≡ 0)) ⊎ (u32 (table_len + 1) ≡ suc table_len)
labels_cases imm table_len after e = elim (dec_lt table_len (2 ^ 32 - 1)) [
  | yes p ↦ inr (omega arith)
  | no p ↦
      let q : table_len ≡ 2 ^ 32 - 1 = omega (arith, p, read_vu32-lt imm (table_len, after) e) in
      inl (record { table_len = table_len; after = after; read = e; wraps = q }, rw q)
]

check_labels-Post :
    {F : Type 0} (rounds i table_len : ℕ) (imm : Stream) (m : Option ℕ) (ctx : Context)
    → Post (λ _. Unit) F (check_labels rounds i table_len imm m ctx)
unfolding check_labels
check_labels-Post zero i table_len imm m ctx = returns tt
check_labels-Post (suc rounds) i table_len imm m ctx = read_vu32-Post imm ⟫ λ (l, imm') _.
    Post-if (leb (length ctx.ctrl_stack) l) _ _ (λ _. throws)
      (λ _. check_labels-Post rounds (i + 1) table_len imm' _ ctx)

-- The two passes, and the branch to the last label.
table_targets-Post :
    (imm1 : Stream) (table_len : ℕ) (ctx1 : Context) (F : Type 0)
    → IsOpen ctx1
    → Post IsOpen F (do
      (pc_copy, m) ← check_labels (suc table_len) 0 table_len imm1 none ctx1
      arity ← last_arity m ctx1
      ctx2 ← add_targets (suc table_len) imm1 pc_copy.p arity ctx1
      m_frame ← last_frame m ctx2
      ctx3 ← pop_vals (label_types m_frame) ctx2
      set_unreachable ctx3)
table_targets-Post imm1 table_len ctx1 F o =
    Post-with (check_labels (suc table_len) 0 table_len imm1 none ctx1)
      (check_labels-Post (suc table_len) 0 table_len imm1 none ctx1)
    ⟫ λ (pc_copy, m) (_, e).
        let labelled =
          check_labels-Labelled table_len 0 table_len imm1 none ctx1 (pc_copy, m) (omega arith) e in
        let h1 : HasFrames (length ctx1.ctrl_stack) ctx1 = record { is_open = o; frames = refl } in
        last_arity-Post m ctx1 _ labelled h1 ⟫ λ arity _.
        add_targets-Post (suc table_len) 0 table_len imm1 none ctx1 (pc_copy, m) pc_copy.p arity
          ctx1 e h1
        ⟫ λ ctx2 h2. last_frame-Post m ctx2 _ labelled h2 ⟫ λ m_frame _.
            pop_vals-Post _ ctx2 h2.is_open ⟫ λ ctx3 m3. set_unreachable-Post ctx3 m3.1

-- `on_br_table` dereferences a null pointer only where the number of labels wraps around to 0.
pub on_br_table-Post :
    (imm : Stream) (ctx : Context)
    → IsOpen ctx
    → Post IsOpen (IsNullTable imm) (on_br_table imm ctx)
unfolding on_br_table check_labels add_targets
on_br_table-Post imm ctx o = pop_drop-Post _ ctx o ⟫ λ ctx1 m1.
    Post-with (read_vu32 imm) (read_vu32-Post imm) ⟫ λ (table_len, imm1) (_, r).
    elim (labels_cases imm table_len imm1 r) [
      | inl (null, e) ↦ rw e (faults null)
      | inr e ↦ rw e (table_targets-Post imm1 table_len ctx1 _ m1.1)
    ]
