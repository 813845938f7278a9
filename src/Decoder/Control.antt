-- ===== src/Decoder/Control.antt =====
-- src/common/op_decoder.c: control and parametric instructions.
use silverfir.Prelude.{ℕ, ◌+◌, ◌∷◌, [], one_of, ◌==◌, ◌!=◌, not, if◌then◌else◌, u32, pos}
use silverfir.Result.{Result, ok, err, invalid, ◌>>=◌}
use silverfir.Format.{is_value_type}
use silverfir.Stream.{Stream, read_u8, read_vi7, seek}
use silverfir.Stream.Leb.{read_vu32}
use silverfir.Module.{Module}
use silverfir.Opcode.{
  op_unreachable, op_nop, op_block, op_loop, op_if, op_else, op_end, op_br, op_br_if, op_br_table,
  op_return, op_call, op_call_indirect, op_drop, op_select, op_select_t, op_prefix_fc, op_prefix_fd,
}
use silverfir.Decoder.Callbacks.{Callbacks}
use silverfir.Decoder.Immediate.{no_imm, u32_imm, u32_u32_imm}
use silverfir.Decoder.BlockType.{get_blocktype}
use silverfir.Decoder.Operand.{decode_variable}
use silverfir.Decoder.Prefixed.{decode_fc, decode_fd}

module _ {S : Type 0} (cb : Callbacks S) (mod' : Module) where
  unfoldable pub block_imm : ℕ → Stream → S → Result (Stream × S)
  block_imm opcode code s = do
    (type, pc) ← get_blocktype code mod'
    s' ← cb.on_block opcode code type s
    ok (pc, s')

  unfoldable pub br_imm : ℕ → Stream → S → Result (Stream × S)
  br_imm opcode code s = do
    (lth, pc) ← read_u8 code
    s' ← cb.on_br_or_if opcode code lth s
    ok (pc, s')

  -- The labels of the table are skipped as if each took one byte.
  unfoldable pub br_table_imm : ℕ → Stream → S → Result (Stream × S)
  br_table_imm opcode code s = do
    s' ← cb.on_br_table opcode code s
    (table_len, pc1) ← read_vu32 code
    pc2 ← seek pc1 (pos (u32 (table_len + 1)))
    ok (pc2, s')

  unfoldable pub select_t_imm : ℕ → Stream → S → Result (Stream × S)
  select_t_imm opcode code s = do
    (n, pc1) ← read_vi7 code
    if n != 1 then err invalid else do
      (t, pc2) ← read_vi7 pc1
      if not (is_value_type t)
          then err invalid
          else do s' ← cb.on_select_t opcode code t s; ok (pc2, s')

  unfoldable pub decode_parametric : ℕ → Stream → S → Result (Stream × S)
  decode_parametric opcode code s =
      if opcode == op_drop
      then no_imm (cb.on_drop opcode code) code s
      else if opcode == op_select
      then no_imm (cb.on_select opcode code) code s
      else if opcode == op_select_t
      then select_t_imm opcode code s
      else if opcode == op_prefix_fc
      then decode_fc cb code s
      else if opcode == op_prefix_fd
      then decode_fd cb code s
      else decode_variable cb opcode code s

  unfoldable pub decode_branch : ℕ → Stream → S → Result (Stream × S)
  decode_branch opcode code s =
      if one_of opcode (op_br ∷ op_br_if ∷ [])
      then br_imm opcode code s
      else if opcode == op_br_table
      then br_table_imm opcode code s
      else if opcode == op_return
      then no_imm (cb.on_return opcode code) code s
      else if opcode == op_call
      then u32_imm (cb.on_call code) code s
      else if opcode == op_call_indirect
      then u32_u32_imm (cb.on_call_indirect code) code s
      else decode_parametric opcode code s

  -- The whole `switch (opcode)`.
  unfoldable pub decode_op : ℕ → Stream → S → Result (Stream × S)
  decode_op opcode code s =
      if opcode == op_unreachable
      then no_imm (cb.on_unreachable opcode code) code s
      else if opcode == op_nop
      then no_imm (cb.on_nop opcode code) code s
      else if one_of opcode (op_block ∷ op_loop ∷ op_if ∷ [])
      then block_imm opcode code s
      else if opcode == op_else
      then no_imm (cb.on_else opcode code) code s
      else if opcode == op_end
      then no_imm (cb.on_end opcode code) code s
      else decode_branch opcode code s
