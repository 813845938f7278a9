-- ===== src/Decoder/Callbacks.antt =====
-- src/common/op_decoder.h: the callbacks, over the type of their payload. A null entry of the C table is
-- the callback that returns its payload.
use silverfir.Prelude.{ℕ}
use silverfir.Result.{Result}
use silverfir.Format.{TypeId}
use silverfir.Stream.{Stream}
use silverfir.Module.{FuncType}

module _ (S : Type 0) where
  abbrev pub CbNone : Type 0
  CbNone = ℕ → Stream → S → Result S

  abbrev pub CbU32 : Type 0
  CbU32 = Stream → ℕ → S → Result S

  abbrev pub CbU32U32 : Type 0
  CbU32U32 = Stream → ℕ → ℕ → S → Result S

  abbrev pub CbTypeId : Type 0
  CbTypeId = ℕ → Stream → TypeId → S → Result S

  pub record Callbacks : Type 0 where
    pub on_opcode : CbNone
    pub on_decode_begin : S → Result S
    pub on_unreachable : CbNone
    pub on_nop : CbNone
    pub on_block : ℕ → Stream → FuncType → S → Result S
    pub on_else : CbNone
    pub on_end : CbNone
    pub on_br_or_if : ℕ → Stream → ℕ → S → Result S
    pub on_br_table : CbNone
    pub on_return : CbNone
    pub on_call : CbU32
    pub on_call_indirect : CbU32U32
    pub on_drop : CbNone
    pub on_select : CbNone
    pub on_select_t : CbTypeId
    pub on_local_get : CbU32
    pub on_local_set : CbU32
    pub on_local_tee : CbU32
    pub on_global_get : CbU32
    pub on_global_set : CbU32
    pub on_table_get : CbU32
    pub on_table_set : CbU32
    pub on_memory_load_store : ℕ → Stream → ℕ → ℕ → S → Result S
    pub on_memory_size : CbNone
    pub on_memory_grow : CbNone
    pub on_i32_const : CbU32
    pub on_i64_const : CbU32
    pub on_f32_const : CbU32
    pub on_f64_const : CbU32
    pub on_iunop : CbNone
    pub on_funop : CbNone
    pub on_ibinop : CbNone
    pub on_fbinop : CbNone
    pub on_itestop : CbNone
    pub on_irelop : CbNone
    pub on_frelop : CbNone
    pub on_wrapop : CbNone
    pub on_truncop : CbNone
    pub on_convertop : CbNone
    pub on_rankop : CbNone
    pub on_reinterpretop : CbNone
    pub on_extendop : CbNone
    pub on_ref_null : CbTypeId
    pub on_ref_is_null : CbNone
    pub on_ref_func : CbU32
    pub on_opcode_fc : CbNone
    pub on_trunc_sat : CbNone
    pub on_memory_init : CbU32
    pub on_memory_copy : CbNone
    pub on_memory_fill : CbNone
    pub on_data_drop : CbU32
    pub on_table_init : CbU32U32
    pub on_elem_drop : CbU32
    pub on_table_copy : CbU32U32
    pub on_table_grow : CbU32
    pub on_table_size : CbU32
    pub on_table_fill : CbU32
    pub on_opcode_fd : CbNone
    pub on_decode_end : S → Result S
