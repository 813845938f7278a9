-- ===== src/Validator/Safety/Operand.antt =====
-- The handlers of src/runtime/validator.c that only pop and push operands.
use silverfir.Prelude.{ℕ, get_elem?, ltb, leb, ◌!=◌, not, ◌&&◌, ◌||◌, length}
use silverfir.Result.{Result, ◌>>=◌}
use silverfir.Result.Post.{Post, returns, throws, Post-if, Post-Option, ◌⟫◌, weaken}
use silverfir.Format.{TypeId, type_id_unknown, is_num, is_vec}
use silverfir.Validator.Context.{Context}
use silverfir.Validator.Context.Invariant.{
  IsOpen, Operands-trans, Operands-refl, Moved, pop_val-Post, pop_drop-Post, push_val-Post,
}
use silverfir.Validator.Variable.{
  on_drop, on_select, on_select_t, on_local_get, on_local_set, on_local_tee, on_global_get,
  on_global_set, on_table_get, on_table_set,
}
use silverfir.Validator.Memory.{mem_load, mem_store, on_memory_load_store, on_memory_grow}
use silverfir.Validator.Numeric.{pop1_push, pop2_push}
use silverfir.Validator.Bulk.{
  on_ref_func, pop_three, on_memory_init, on_memory_copy, on_data_drop, on_table_init, on_elem_drop,
  on_table_copy, on_table_grow, on_table_size, on_table_fill,
}

abbrev same : (ctx : Context) → IsOpen ctx → Moved ctx ctx
same ctx o = (Operands-refl o, o)

module _ {F : Type 0} where
  followed_by :
      {ctx : Context} {m : Result Context} {k : Context → Result Context}
      → Post (Moved ctx) F m
      → ((ctx1 : Context) → IsOpen ctx1 → Post (Moved ctx1) F (k ctx1))
      → Post (Moved ctx) F (m >>= k)
  followed_by h k = h ⟫ λ ctx1 m. weaken (λ ctx2 n. (Operands-trans m.0 n.0, n.1)) (k ctx1 m.1)

  pub pop1_push-Post :
      (a b : TypeId) (ctx : Context) → IsOpen ctx → Post (Moved ctx) F (pop1_push a b ctx)
  unfolding pop1_push
  pop1_push-Post a b ctx o = followed_by (pop_drop-Post a ctx o) (push_val-Post b)

  pub pop2_push-Post :
      (a b : TypeId) (ctx : Context) → IsOpen ctx → Post (Moved ctx) F (pop2_push a b ctx)
  unfolding pop2_push
  pop2_push-Post a b ctx o =
      followed_by (pop_drop-Post a ctx o)
        (λ ctx1 o1. followed_by (pop_drop-Post a ctx1 o1) (push_val-Post b))

  pop_three-Post :
      (a b c : TypeId) (ctx : Context) → IsOpen ctx → Post (Moved ctx) F (pop_three a b c ctx)
  unfolding pop_three
  pop_three-Post a b c ctx o =
      followed_by (pop_drop-Post a ctx o)
        (λ ctx1 o1. followed_by (pop_drop-Post b ctx1 o1) (pop_drop-Post c))

  pub on_ref_func-Post :
      (fref : ℕ) (ctx : Context) → IsOpen ctx → Post (Moved ctx) F (on_ref_func fref ctx)
  unfolding on_ref_func
  on_ref_func-Post fref ctx o = search (Post-if, throws, push_val-Post, o) depth 8

  pub on_memory_init-Post :
      (data_idx : ℕ) (ctx : Context) → IsOpen ctx → Post (Moved ctx) F (on_memory_init data_idx ctx)
  unfolding on_memory_init
  on_memory_init-Post data_idx ctx o = search (Post-if, throws, pop_three-Post, o) depth 8

  pub on_memory_copy-Post : (ctx : Context) → IsOpen ctx → Post (Moved ctx) F (on_memory_copy ctx)
  unfolding on_memory_copy
  on_memory_copy-Post ctx o = search (Post-if, throws, pop_three-Post, o) depth 8

  pub on_data_drop-Post :
      (data_idx : ℕ) (ctx : Context) → IsOpen ctx → Post (Moved ctx) F (on_data_drop data_idx ctx)
  unfolding on_data_drop
  on_data_drop-Post data_idx ctx o = search (Post-if, throws, returns, same, o) depth 8

  pub on_elem_drop-Post :
      (elem_idx : ℕ) (ctx : Context) → IsOpen ctx → Post (Moved ctx) F (on_elem_drop elem_idx ctx)
  unfolding on_elem_drop
  on_elem_drop-Post elem_idx ctx o = search (Post-if, throws, returns, same, o) depth 8

  pub on_table_init-Post :
      (elem_idx table_idx : ℕ) (ctx : Context)
      → IsOpen ctx
      → Post (Moved ctx) F (on_table_init elem_idx table_idx ctx)
  unfolding on_table_init
  on_table_init-Post elem_idx table_idx ctx o =
      Post-Option (get_elem? ctx.mod'.tables table_idx) _ _ throws (λ x.
        Post-Option (get_elem? ctx.mod'.elements elem_idx) _ _ throws
          (λ y. search (Post-if, throws, pop_three-Post, o) depth 8))

  pub on_table_copy-Post :
      (table_idx_dst table_idx_src : ℕ) (ctx : Context)
      → IsOpen ctx
      → Post (Moved ctx) F (on_table_copy table_idx_dst table_idx_src ctx)
  unfolding on_table_copy
  on_table_copy-Post table_idx_dst table_idx_src ctx o =
      Post-Option (get_elem? ctx.mod'.tables table_idx_src) _ _ throws (λ x.
        Post-Option (get_elem? ctx.mod'.tables table_idx_dst) _ _ throws
          (λ y. search (Post-if, throws, pop_three-Post, o) depth 8))

  pub on_table_size-Post :
      (table_idx : ℕ) (ctx : Context)
      → IsOpen ctx
      → Post (Moved ctx) F (on_table_size table_idx ctx)
  unfolding on_table_size
  on_table_size-Post table_idx ctx o = search (Post-if, throws, push_val-Post, o) depth 8

  pub on_table_fill-Post :
      (table_idx : ℕ) (ctx : Context)
      → IsOpen ctx
      → Post (Moved ctx) F (on_table_fill table_idx ctx)
  unfolding on_table_fill
  on_table_fill-Post table_idx ctx o = search (Post-if, throws, pop_three-Post, o) depth 8

  pub on_table_grow-Post :
      (table_idx : ℕ) (ctx : Context)
      → IsOpen ctx
      → Post (Moved ctx) F (on_table_grow table_idx ctx)
  unfolding on_table_grow
  on_table_grow-Post table_idx ctx o =
      Post-if (leb (length ctx.mod'.tables) table_idx) _ _ (λ _. throws)
        (λ _.
          followed_by (pop_drop-Post _ ctx o)
            (λ ctx1 o1. followed_by (pop_drop-Post _ ctx1 o1) (push_val-Post _)))

  pub on_local_get-Post :
      (local_idx : ℕ) (ctx : Context) → IsOpen ctx → Post (Moved ctx) F (on_local_get local_idx ctx)
  unfolding on_local_get
  on_local_get-Post local_idx ctx o =
      Post-Option (get_elem? ctx.locals local_idx) _ _ throws (λ x. push_val-Post _ ctx o)

  pub on_local_set-Post :
      (local_idx : ℕ) (ctx : Context) → IsOpen ctx → Post (Moved ctx) F (on_local_set local_idx ctx)
  unfolding on_local_set
  on_local_set-Post local_idx ctx o =
      Post-Option (get_elem? ctx.locals local_idx) _ _ throws (λ x. pop_drop-Post _ ctx o)

  pub on_global_get-Post :
      (global_idx : ℕ) (ctx : Context)
      → IsOpen ctx
      → Post (Moved ctx) F (on_global_get global_idx ctx)
  unfolding on_global_get
  on_global_get-Post global_idx ctx o =
      Post-Option (get_elem? ctx.mod'.globals global_idx) _ _ throws (λ x. push_val-Post _ ctx o)

  pub on_global_set-Post :
      (global_idx : ℕ) (ctx : Context)
      → IsOpen ctx
      → Post (Moved ctx) F (on_global_set global_idx ctx)
  unfolding on_global_set
  on_global_set-Post global_idx ctx o =
      Post-Option (get_elem? ctx.mod'.globals global_idx) _ _ throws (λ x. pop_drop-Post _ ctx o)

  pub on_local_tee-Post :
      (local_idx : ℕ) (ctx : Context) → IsOpen ctx → Post (Moved ctx) F (on_local_tee local_idx ctx)
  unfolding on_local_tee
  on_local_tee-Post local_idx ctx o =
      Post-Option (get_elem? ctx.locals local_idx) _ _ throws
        (λ x. followed_by (pop_drop-Post _ ctx o) (push_val-Post _))

  pub on_table_get-Post :
      (table_idx : ℕ) (ctx : Context) → IsOpen ctx → Post (Moved ctx) F (on_table_get table_idx ctx)
  unfolding on_table_get
  on_table_get-Post table_idx ctx o =
      Post-Option (get_elem? ctx.mod'.tables table_idx) _ _ throws
        (λ x. followed_by (pop_drop-Post _ ctx o) (push_val-Post _))

  pub on_table_set-Post :
      (table_idx : ℕ) (ctx : Context) → IsOpen ctx → Post (Moved ctx) F (on_table_set table_idx ctx)
  unfolding on_table_set
  on_table_set-Post table_idx ctx o =
      Post-Option (get_elem? ctx.mod'.tables table_idx) _ _ throws
        (λ x. followed_by (pop_drop-Post _ ctx o) (pop_drop-Post _))

  pub on_memory_grow-Post : (ctx : Context) → IsOpen ctx → Post (Moved ctx) F (on_memory_grow ctx)
  unfolding on_memory_grow
  on_memory_grow-Post ctx o = followed_by (pop_drop-Post _ ctx o) (push_val-Post _)

  pub on_select_t-Post :
      (type : TypeId) (ctx : Context) → IsOpen ctx → Post (Moved ctx) F (on_select_t type ctx)
  unfolding on_select_t
  on_select_t-Post type ctx o = followed_by (pop_drop-Post _ ctx o) (λ ctx1 o1.
      followed_by (pop_drop-Post _ ctx1 o1)
        (λ ctx2 o2. followed_by (pop_drop-Post _ ctx2 o2) (push_val-Post _)))

  pub on_drop-Post : (ctx : Context) → IsOpen ctx → Post (Moved ctx) F (on_drop ctx)
  unfolding on_drop
  on_drop-Post ctx o = pop_val-Post ctx o ⟫ λ (t, ctx1) m. returns m

  pub on_select-Post : (ctx : Context) → IsOpen ctx → Post (Moved ctx) F (on_select ctx)
  unfolding on_select
  on_select-Post ctx o = followed_by (pop_drop-Post _ ctx o) (λ ctx1 o1.
      pop_val-Post ctx1 o1 ⟫ λ (t1, ctx2) m2. pop_val-Post ctx2 m2.1 ⟫ λ (t2, ctx3) m3.
      Post-if (not (is_num t1 && is_num t2 || is_vec t1 && is_vec t2)) _ _ (λ _. throws)
        (λ _.
          Post-if (t1 != t2 && t1 != type_id_unknown && t2 != type_id_unknown) _ _ (λ _. throws)
            (λ _.
              weaken (λ ctx4 m4. (Operands-trans (Operands-trans m2.0 m3.0) m4.0, m4.1))
                (push_val-Post _ ctx3 m3.1))))

  mem_load-Post :
      (t : TypeId) (size align : ℕ) (ctx : Context)
      → IsOpen ctx
      → Post (Moved ctx) F (mem_load t size align ctx)
  unfolding mem_load
  mem_load-Post t size align ctx o =
      Post-if (ltb size align) _ _ (λ _. throws)
        (λ _. followed_by (pop_drop-Post _ ctx o) (push_val-Post _))

  mem_store-Post :
      (t : TypeId) (size align : ℕ) (ctx : Context)
      → IsOpen ctx
      → Post (Moved ctx) F (mem_store t size align ctx)
  unfolding mem_store
  mem_store-Post t size align ctx o =
      Post-if (ltb size align) _ _ (λ _. throws)
        (λ _. followed_by (pop_drop-Post _ ctx o) (pop_drop-Post _))

  pub on_memory_load_store-Post :
      (opcode align : ℕ) (ctx : Context)
      → IsOpen ctx
      → Post (Moved ctx) F (on_memory_load_store opcode align ctx)
  unfolding on_memory_load_store
  on_memory_load_store-Post opcode align ctx o =
      search (Post-if, throws, returns, same, mem_load-Post, mem_store-Post, o) depth 20
