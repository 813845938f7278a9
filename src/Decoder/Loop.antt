-- ===== src/Decoder/Loop.antt =====
-- src/common/op_decoder.c: `decode_function`.
use silverfir.Prelude.{ℕ, zero, suc, ◌+◌, Bool, true, false, Option, none, some, length, ◌==◌, ◌&&◌}
use silverfir.Result.{Result, ok, err, fault, ◌>>=◌}
use silverfir.Stream.{Stream, stream_from, remaining, read_u8}
use silverfir.Module.{Func, Module}
use silverfir.Opcode.{op_end}
use silverfir.Decoder.Callbacks.{Callbacks}
use silverfir.Decoder.Control.{decode_op}

module _ {S : Type 0} (cb : Callbacks S) (mod' : Module) where
  -- One turn of `while (true)`; the Boolean says that the turn left by `goto finish`.
  unfoldable pub decode_turn : Stream → S → Result (Bool × Stream × S)
  decode_turn code s = do
    (opcode, pc) ← read_u8 code
    s1 ← cb.on_opcode opcode pc s
    (pc', s2) ← decode_op cb mod' opcode pc s1
    ok (opcode == op_end && remaining pc' == 0, pc', s2)

  -- The loop; `none` says that the fuel ran out.
  unfoldable pub decode_loop : ℕ → Stream → S → Option (Result S)
  decode_loop zero code s = none
  decode_loop (suc fuel) code s = elim (decode_turn code s) [
    | ok (true, pc, s') ↦ some (cb.on_decode_end s')
    | ok (false, pc, s') ↦ decode_loop fuel pc s'
    | err e ↦ some (err e)
    | fault ↦ some fault
  ]

  -- Each turn takes a byte at least, so the fuel is the length of the code and one more turn.
  unfoldable pub decode_function : Func → S → Option (Result S)
  decode_function f payload = elim (cb.on_decode_begin payload) [
    | ok s ↦ decode_loop (length f.code + 1) (stream_from f.code) s
    | err e ↦ some (err e)
    | fault ↦ some fault
  ]
