-- ===== src/Decoder/Operand.antt =====
-- src/common/op_decoder.c: variable, table, memory, constant and reference instructions.
use silverfir.Prelude.{ℕ, ◌∷◌, [], one_of, ◌==◌, not, if◌then◌else◌}
use silverfir.Result.{Result, ok, err, invalid, ◌>>=◌}
use silverfir.Format.{is_ref}
use silverfir.Stream.{Stream, read_vu7, read_vi7, read_f32, read_f64}
use silverfir.Stream.Leb.{read_vu32, read_vi32, read_vi64}
use silverfir.Opcode.{
  op_local_get, op_local_set, op_local_tee, op_global_get, op_global_set, op_table_get,
  op_table_set, op_i32_load, op_i32_load8_s, op_i32_load8_u, op_i32_load16_s, op_i32_load16_u,
  op_i64_load, op_i64_load8_s, op_i64_load8_u, op_i64_load16_s, op_i64_load16_u, op_i64_load32_s,
  op_i64_load32_u, op_f32_load, op_f64_load, op_i32_store, op_i32_store8, op_i32_store16,
  op_i64_store, op_i64_store8, op_i64_store16, op_i64_store32, op_f32_store, op_f64_store,
  op_memory_size, op_memory_grow, op_i32_const, op_i64_const, op_f32_const, op_f64_const,
  op_ref_null, op_ref_is_null, op_ref_func,
}
use silverfir.Decoder.Callbacks.{Callbacks}
use silverfir.Decoder.Immediate.{no_imm, u32_imm, reserved_imm}
use silverfir.Decoder.Numeric.{decode_numeric}

module _ {S : Type 0} (cb : Callbacks S) where
  unfoldable pub ref_null_imm : ℕ → Stream → S → Result (Stream × S)
  ref_null_imm opcode code s = do
    (ref_type, pc) ← read_vi7 code
    if not (is_ref ref_type)
        then err invalid
        else do s' ← cb.on_ref_null opcode code ref_type s; ok (pc, s')

  unfoldable pub decode_reference : ℕ → Stream → S → Result (Stream × S)
  decode_reference opcode code s =
      if opcode == op_ref_null
      then ref_null_imm opcode code s
      else if opcode == op_ref_is_null
      then no_imm (cb.on_ref_is_null opcode code) code s
      else if opcode == op_ref_func
      then u32_imm (cb.on_ref_func code) code s
      else decode_numeric cb opcode code s

  -- The constants: a reader for the immediate, and the callback.
  unfoldable pub const_imm :
      (Stream → Result (ℕ × Stream)) → (ℕ → S → Result S) → Stream → S → Result (Stream × S)
  const_imm read f code s = do (val, pc) ← read code; s' ← f val s; ok (pc, s')

  unfoldable pub decode_const : ℕ → Stream → S → Result (Stream × S)
  decode_const opcode code s =
      if opcode == op_i32_const
      then const_imm read_vi32 (cb.on_i32_const code) code s
      else if opcode == op_i64_const
      then const_imm read_vi64 (cb.on_i64_const code) code s
      else if opcode == op_f32_const
      then const_imm read_f32 (cb.on_f32_const code) code s
      else if opcode == op_f64_const
      then const_imm read_f64 (cb.on_f64_const code) code s
      else decode_reference opcode code s

  unfoldable pub load_store_imm : ℕ → Stream → S → Result (Stream × S)
  load_store_imm opcode code s = do
    (align, pc1) ← read_vu7 code
    (offset, pc2) ← read_vu32 pc1
    s' ← cb.on_memory_load_store opcode code align offset s
    ok (pc2, s')

  unfoldable pub decode_memory : ℕ → Stream → S → Result (Stream × S)
  decode_memory opcode code s =
      if one_of opcode (
        op_i32_load ∷ op_i32_load8_s ∷ op_i32_load8_u ∷ op_i32_load16_s ∷ op_i32_load16_u
        ∷ op_i64_load ∷ op_i64_load8_s ∷ op_i64_load8_u ∷ op_i64_load16_s ∷ op_i64_load16_u
        ∷ op_i64_load32_s ∷ op_i64_load32_u ∷ op_f32_load ∷ op_f64_load ∷ op_i32_store
        ∷ op_i32_store8 ∷ op_i32_store16 ∷ op_i64_store ∷ op_i64_store8 ∷ op_i64_store16
        ∷ op_i64_store32 ∷ op_f32_store ∷ op_f64_store ∷ [])
      then load_store_imm opcode code s
      else if opcode == op_memory_size
      then reserved_imm (cb.on_memory_size opcode code) code s
      else if opcode == op_memory_grow
      then reserved_imm (cb.on_memory_grow opcode code) code s
      else decode_const opcode code s

  unfoldable pub decode_variable : ℕ → Stream → S → Result (Stream × S)
  decode_variable opcode code s =
      if opcode == op_local_get
      then u32_imm (cb.on_local_get code) code s
      else if opcode == op_local_set
      then u32_imm (cb.on_local_set code) code s
      else if opcode == op_local_tee
      then u32_imm (cb.on_local_tee code) code s
      else if opcode == op_global_get
      then u32_imm (cb.on_global_get code) code s
      else if opcode == op_global_set
      then u32_imm (cb.on_global_set code) code s
      else if opcode == op_table_get
      then u32_imm (cb.on_table_get code) code s
      else if opcode == op_table_set
      then u32_imm (cb.on_table_set code) code s
      else decode_memory opcode code s
