-- ===== src/Interpreter/Constant/Runs.antt =====
-- The positions that the loop of src/interpreter/const_expr_eval.c comes to.
use silverfir.Prelude.{false, ℕ, suc, ◌≤◌, ◌<◌, ◌≡◌, ap, Bool, ◌&&◌, ◌==◌, ◌!=◌, length, arith}
use silverfir.Result.{ok}
use silverfir.Stream.{Stream, remaining, read_u8}
use silverfir.Stream.Leb.{read_vu32}
use silverfir.Stream.Moves.{IsAhead}
use silverfir.Opcode.{op_ref_null, op_ref_func, op_end}
use silverfir.Interpreter.Constant.{TypedValue, ConstInst, reduce_op}

-- The loop takes the instruction `opcode` at `st`, and its immediates start at `after`.
pub record IsNext (passive_elem : Bool) (st : Stream) (opcode : ℕ) (after : Stream) : Type 0 where
  pub left : (remaining st == 0) ≡ false
  pub fetched : read_u8 st ≡ ok (opcode, after)
  pub allowed :
      (passive_elem && (opcode != op_ref_null && (opcode != op_ref_func && opcode != op_end)))
      ≡ false
  pub goes_on : (opcode == op_end) ≡ false

-- The positions of the instructions that a reduction comes to.
pub data Reaches (inst : ConstInst) (passive_elem : Bool) (code : Stream) : Stream → Type 0 where
  start : Reaches inst passive_elem code code
  step :
      {st after st' : Stream} {opcode : ℕ} {value : TypedValue}
      → Reaches inst passive_elem code st
      → IsNext passive_elem st opcode after
      → reduce_op inst opcode after ≡ ok (value, st')
      → Reaches inst passive_elem code st'

-- The reduction comes to a `ref.func` with the index of a function that the instance does not have.
pub record NamesNoFunction (inst : ConstInst) (passive_elem : Bool) (code : Stream) : Type 0 where
  pub st : Stream
  pub after : Stream
  pub end' : Stream
  pub f_idx : ℕ
  pub reached : Reaches inst passive_elem code st
  pub instruction : IsNext passive_elem st op_ref_func after
  pub index : read_vu32 after ≡ ok (f_idx, end')
  pub missing : length inst.f_addrs ≤ f_idx

pub less :
    (st st1 st2 : Stream)
    → IsAhead st st1
    → IsAhead st1 st2
    → (fuel : ℕ) → remaining st < suc fuel
    → remaining st2 < fuel
unfolding remaining
less st st1 st2 p1 p2 fuel enough =
    omega (arith, p1.ahead, p1.within, p2.ahead, p2.within, ap length p1.same, ap length p2.same)
