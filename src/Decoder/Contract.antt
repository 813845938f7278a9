-- ===== src/Decoder/Contract.antt =====
-- A contract for a table of callbacks: from a payload where `I` holds a callback returns one where
-- `J` holds, or an error, and it faults only if `F`; `on_br_table`, which reads its own labels, only if `B` holds of them. `I` and `J` differ where a callback may end the
-- function.
use silverfir.Prelude.{ℕ}
use silverfir.Result.Post.{Post}
use silverfir.Format.{TypeId}
use silverfir.Stream.{Stream}
use silverfir.Module.{FuncType}
use silverfir.Decoder.Callbacks.{Callbacks}

module _ {S : Type 0} where
  pub record Keeps (I J : S → Type 0) (B : Stream → Type 0) (F : Type 0) (cb : Callbacks S)
      : Type 0 where
    pub on_opcode : (opcode : ℕ) (imm : Stream) (s : S) → I s → Post I F (cb.on_opcode opcode imm s)
    pub on_unreachable :
        (opcode : ℕ) (imm : Stream) (s : S) → I s → Post J F (cb.on_unreachable opcode imm s)
    pub on_nop : (opcode : ℕ) (imm : Stream) (s : S) → I s → Post J F (cb.on_nop opcode imm s)
    pub on_block :
        (opcode : ℕ) (imm : Stream) (type : FuncType) (s : S)
        → I s
        → Post J F (cb.on_block opcode imm type s)
    pub on_else : (opcode : ℕ) (imm : Stream) (s : S) → I s → Post J F (cb.on_else opcode imm s)
    pub on_end : (opcode : ℕ) (imm : Stream) (s : S) → I s → Post J F (cb.on_end opcode imm s)
    pub on_br_or_if :
        (opcode : ℕ) (imm : Stream) (lth : ℕ) (s : S)
        → I s
        → Post J F (cb.on_br_or_if opcode imm lth s)
    pub on_br_table :
        (opcode : ℕ) (imm : Stream) (s : S) → I s → Post J (B imm) (cb.on_br_table opcode imm s)
    pub on_return : (opcode : ℕ) (imm : Stream) (s : S) → I s → Post J F (cb.on_return opcode imm s)
    pub on_call : (imm : Stream) (u : ℕ) (s : S) → I s → Post J F (cb.on_call imm u s)
    pub on_call_indirect :
        (imm : Stream) (u v : ℕ) (s : S) → I s → Post J F (cb.on_call_indirect imm u v s)
    pub on_drop : (opcode : ℕ) (imm : Stream) (s : S) → I s → Post J F (cb.on_drop opcode imm s)
    pub on_select : (opcode : ℕ) (imm : Stream) (s : S) → I s → Post J F (cb.on_select opcode imm s)
    pub on_select_t :
        (opcode : ℕ) (imm : Stream) (type : TypeId) (s : S)
        → I s
        → Post J F (cb.on_select_t opcode imm type s)
    pub on_local_get : (imm : Stream) (u : ℕ) (s : S) → I s → Post J F (cb.on_local_get imm u s)
    pub on_local_set : (imm : Stream) (u : ℕ) (s : S) → I s → Post J F (cb.on_local_set imm u s)
    pub on_local_tee : (imm : Stream) (u : ℕ) (s : S) → I s → Post J F (cb.on_local_tee imm u s)
    pub on_global_get : (imm : Stream) (u : ℕ) (s : S) → I s → Post J F (cb.on_global_get imm u s)
    pub on_global_set : (imm : Stream) (u : ℕ) (s : S) → I s → Post J F (cb.on_global_set imm u s)
    pub on_table_get : (imm : Stream) (u : ℕ) (s : S) → I s → Post J F (cb.on_table_get imm u s)
    pub on_table_set : (imm : Stream) (u : ℕ) (s : S) → I s → Post J F (cb.on_table_set imm u s)
    pub on_memory_load_store :
        (opcode : ℕ) (imm : Stream) (align offset : ℕ) (s : S)
        → I s
        → Post J F (cb.on_memory_load_store opcode imm align offset s)
    pub on_memory_size :
        (opcode : ℕ) (imm : Stream) (s : S) → I s → Post J F (cb.on_memory_size opcode imm s)
    pub on_memory_grow :
        (opcode : ℕ) (imm : Stream) (s : S) → I s → Post J F (cb.on_memory_grow opcode imm s)
    pub on_i32_const : (imm : Stream) (u : ℕ) (s : S) → I s → Post J F (cb.on_i32_const imm u s)
    pub on_i64_const : (imm : Stream) (u : ℕ) (s : S) → I s → Post J F (cb.on_i64_const imm u s)
    pub on_f32_const : (imm : Stream) (u : ℕ) (s : S) → I s → Post J F (cb.on_f32_const imm u s)
    pub on_f64_const : (imm : Stream) (u : ℕ) (s : S) → I s → Post J F (cb.on_f64_const imm u s)
    pub on_iunop : (opcode : ℕ) (imm : Stream) (s : S) → I s → Post J F (cb.on_iunop opcode imm s)
    pub on_funop : (opcode : ℕ) (imm : Stream) (s : S) → I s → Post J F (cb.on_funop opcode imm s)
    pub on_ibinop : (opcode : ℕ) (imm : Stream) (s : S) → I s → Post J F (cb.on_ibinop opcode imm s)
    pub on_fbinop : (opcode : ℕ) (imm : Stream) (s : S) → I s → Post J F (cb.on_fbinop opcode imm s)
    pub on_itestop :
        (opcode : ℕ) (imm : Stream) (s : S) → I s → Post J F (cb.on_itestop opcode imm s)
    pub on_irelop : (opcode : ℕ) (imm : Stream) (s : S) → I s → Post J F (cb.on_irelop opcode imm s)
    pub on_frelop : (opcode : ℕ) (imm : Stream) (s : S) → I s → Post J F (cb.on_frelop opcode imm s)
    pub on_wrapop : (opcode : ℕ) (imm : Stream) (s : S) → I s → Post J F (cb.on_wrapop opcode imm s)
    pub on_truncop :
        (opcode : ℕ) (imm : Stream) (s : S) → I s → Post J F (cb.on_truncop opcode imm s)
    pub on_convertop :
        (opcode : ℕ) (imm : Stream) (s : S) → I s → Post J F (cb.on_convertop opcode imm s)
    pub on_rankop : (opcode : ℕ) (imm : Stream) (s : S) → I s → Post J F (cb.on_rankop opcode imm s)
    pub on_reinterpretop :
        (opcode : ℕ) (imm : Stream) (s : S) → I s → Post J F (cb.on_reinterpretop opcode imm s)
    pub on_extendop :
        (opcode : ℕ) (imm : Stream) (s : S) → I s → Post J F (cb.on_extendop opcode imm s)
    pub on_ref_null :
        (opcode : ℕ) (imm : Stream) (type : TypeId) (s : S)
        → I s
        → Post J F (cb.on_ref_null opcode imm type s)
    pub on_ref_is_null :
        (opcode : ℕ) (imm : Stream) (s : S) → I s → Post J F (cb.on_ref_is_null opcode imm s)
    pub on_ref_func : (imm : Stream) (u : ℕ) (s : S) → I s → Post J F (cb.on_ref_func imm u s)
    pub on_opcode_fc :
        (opcode : ℕ) (imm : Stream) (s : S) → I s → Post I F (cb.on_opcode_fc opcode imm s)
    pub on_trunc_sat :
        (opcode : ℕ) (imm : Stream) (s : S) → I s → Post J F (cb.on_trunc_sat opcode imm s)
    pub on_memory_init : (imm : Stream) (u : ℕ) (s : S) → I s → Post J F (cb.on_memory_init imm u s)
    pub on_memory_copy :
        (opcode : ℕ) (imm : Stream) (s : S) → I s → Post J F (cb.on_memory_copy opcode imm s)
    pub on_memory_fill :
        (opcode : ℕ) (imm : Stream) (s : S) → I s → Post J F (cb.on_memory_fill opcode imm s)
    pub on_data_drop : (imm : Stream) (u : ℕ) (s : S) → I s → Post J F (cb.on_data_drop imm u s)
    pub on_table_init :
        (imm : Stream) (u v : ℕ) (s : S) → I s → Post J F (cb.on_table_init imm u v s)
    pub on_elem_drop : (imm : Stream) (u : ℕ) (s : S) → I s → Post J F (cb.on_elem_drop imm u s)
    pub on_table_copy :
        (imm : Stream) (u v : ℕ) (s : S) → I s → Post J F (cb.on_table_copy imm u v s)
    pub on_table_grow : (imm : Stream) (u : ℕ) (s : S) → I s → Post J F (cb.on_table_grow imm u s)
    pub on_table_size : (imm : Stream) (u : ℕ) (s : S) → I s → Post J F (cb.on_table_size imm u s)
    pub on_table_fill : (imm : Stream) (u : ℕ) (s : S) → I s → Post J F (cb.on_table_fill imm u s)
    pub on_opcode_fd :
        (opcode : ℕ) (imm : Stream) (s : S) → I s → Post J F (cb.on_opcode_fd opcode imm s)
