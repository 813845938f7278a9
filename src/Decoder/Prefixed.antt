-- ===== src/Decoder/Prefixed.antt =====
-- src/common/op_decoder.c: the instructions behind the prefixes 0xfc and 0xfd.
use silverfir.Prelude.{ℕ, ◌∷◌, [], one_of, ◌==◌, ◌!=◌, ◌||◌, if◌then◌else◌}
use silverfir.Result.{Result, ok, err, invalid, malformed, ◌>>=◌}
use silverfir.Stream.{Stream, read_vu7}
use silverfir.Stream.Leb.{read_vu32}
use silverfir.Opcode.{
  op_i32_trunc_sat_f32_s, op_i32_trunc_sat_f32_u, op_i32_trunc_sat_f64_s, op_i32_trunc_sat_f64_u,
  op_i64_trunc_sat_f32_s, op_i64_trunc_sat_f32_u, op_i64_trunc_sat_f64_s, op_i64_trunc_sat_f64_u,
  op_memory_init, op_memory_copy, op_memory_fill, op_data_drop, op_table_init, op_elem_drop,
  op_table_copy, op_table_grow, op_table_size, op_table_fill,
}
use silverfir.Decoder.Callbacks.{Callbacks}
use silverfir.Decoder.Immediate.{no_imm, u32_imm, u32_u32_imm, reserved_imm}

module _ {S : Type 0} (cb : Callbacks S) where
  unfoldable pub memory_init_imm : Stream → S → Result (Stream × S)
  memory_init_imm code s = do
    (data_idx, pc1) ← read_vu32 code
    (reserved_byte, pc2) ← read_vu7 pc1
    if reserved_byte != 0
        then err malformed
        else do s' ← cb.on_memory_init code data_idx s; ok (pc2, s')

  unfoldable pub memory_copy_imm : ℕ → Stream → S → Result (Stream × S)
  memory_copy_imm opcode_fc code s = do
    (mem_idx_src, pc1) ← read_vu7 code
    (mem_idx_dst, pc2) ← read_vu7 pc1
    if mem_idx_dst != 0 || mem_idx_src != 0
        then err malformed
        else do s' ← cb.on_memory_copy opcode_fc code s; ok (pc2, s')

  unfoldable pub decode_table_fc : ℕ → Stream → S → Result (Stream × S)
  decode_table_fc opcode_fc code s =
      if opcode_fc == op_table_init
      then u32_u32_imm (cb.on_table_init code) code s
      else if opcode_fc == op_elem_drop
      then u32_imm (cb.on_elem_drop code) code s
      else if opcode_fc == op_table_copy
      then u32_u32_imm (cb.on_table_copy code) code s
      else if opcode_fc == op_table_grow
      then u32_imm (cb.on_table_grow code) code s
      else if opcode_fc == op_table_size
      then u32_imm (cb.on_table_size code) code s
      else if opcode_fc == op_table_fill
      then u32_imm (cb.on_table_fill code) code s
      else err invalid

  unfoldable pub decode_fc_op : ℕ → Stream → S → Result (Stream × S)
  decode_fc_op opcode_fc code s =
      if one_of opcode_fc (
        op_i32_trunc_sat_f32_s ∷ op_i32_trunc_sat_f32_u ∷ op_i32_trunc_sat_f64_s
        ∷ op_i32_trunc_sat_f64_u ∷ op_i64_trunc_sat_f32_s ∷ op_i64_trunc_sat_f32_u
        ∷ op_i64_trunc_sat_f64_s ∷ op_i64_trunc_sat_f64_u ∷ [])
      then no_imm (cb.on_trunc_sat opcode_fc code) code s
      else if opcode_fc == op_memory_init
      then memory_init_imm code s
      else if opcode_fc == op_memory_copy
      then memory_copy_imm opcode_fc code s
      else if opcode_fc == op_memory_fill
      then reserved_imm (cb.on_memory_fill opcode_fc code) code s
      else if opcode_fc == op_data_drop
      then u32_imm (cb.on_data_drop code) code s
      else decode_table_fc opcode_fc code s

  unfoldable pub decode_fc : Stream → S → Result (Stream × S)
  decode_fc code s = do
    (opcode_fc, pc) ← read_vu32 code
    s' ← cb.on_opcode_fc opcode_fc pc s
    decode_fc_op opcode_fc pc s'

  unfoldable pub decode_fd : Stream → S → Result (Stream × S)
  decode_fd code s = do
    (opcode_fd, pc) ← read_vu32 code
    s' ← cb.on_opcode_fd opcode_fd pc s
    err invalid
