-- ===== src/Decoder/Immediate.antt =====
-- src/common/op_decoder.c: the immediates that several instructions share. Each reader takes the
-- callback to run, the position behind the opcode and the payload.
use silverfir.Prelude.{ℕ, ◌!=◌, if◌then◌else◌}
use silverfir.Result.{Result, ok, err, malformed, ◌>>=◌}
use silverfir.Stream.{Stream, read_vu7}
use silverfir.Stream.Leb.{read_vu32}

module _ {S : Type 0} where
  unfoldable pub no_imm : (S → Result S) → Stream → S → Result (Stream × S)
  no_imm f code s = do s' ← f s; ok (code, s')

  unfoldable pub u32_imm : (ℕ → S → Result S) → Stream → S → Result (Stream × S)
  u32_imm f code s = do (u, pc) ← read_vu32 code; s' ← f u s; ok (pc, s')

  unfoldable pub u32_u32_imm : (ℕ → ℕ → S → Result S) → Stream → S → Result (Stream × S)
  u32_u32_imm f code s = do
    (u1, pc1) ← read_vu32 code
    (u2, pc2) ← read_vu32 pc1
    s' ← f u1 u2 s
    ok (pc2, s')

  -- The reserved byte of the memory instructions is zero.
  unfoldable pub reserved_imm : (S → Result S) → Stream → S → Result (Stream × S)
  reserved_imm f code s = do
    (reserved_byte, pc) ← read_vu7 code
    if reserved_byte != 0 then err malformed else do s' ← f s; ok (pc, s')
