-- ===== src/Stream/Leb/Bounds.antt =====
-- The numbers that the LEB128 decoders of src/utils/stream.h return fit their type.
use silverfir.Prelude.{ℕ, zero, suc, ◌+◌, ◌^◌, ◌<◌, ◌≡◌, arith, bit_and, shl_wrap}
use silverfir.Prelude.Bits.{bit_or_lt}
use silverfir.Result.{ok}
use silverfir.Stream.{Stream, byte}
use silverfir.Stream.Leb.{add_group, unsigned_loop, read_vu32}

add_group-lt : (result b shift : ℕ) → result < 2 ^ 32 → add_group 32 result b shift < 2 ^ 32
add_group-lt result b shift h =
    bit_or_lt 32 result (shl_wrap 32 (bit_and b 0x7f) shift) h (omega arith)

unsigned_loop-lt :
    (rounds : ℕ) (st : Stream) (offset shift result : ℕ) (x : ℕ × Stream)
    → result < 2 ^ 32
    → unsigned_loop rounds 32 st offset shift result ≡ ok x
    → x.0 < 2 ^ 32
unfolding unsigned_loop
unsigned_loop-lt zero st offset shift result x h e = cc
unsigned_loop-lt (suc rounds) st offset shift result x h e = ground (
  arith,
  add_group-lt result (byte st offset) shift h,
  unsigned_loop-lt rounds st (offset + 1) (shift + 7) (add_group 32 result (byte st offset) shift)
      x,
)

-- Whatever bytes the stream holds, a number that `read_vu32` returns is below 2^32.
pub read_vu32-lt : (st : Stream) (x : ℕ × Stream) → read_vu32 st ≡ ok x → x.0 < 2 ^ 32
unfolding read_vu32
read_vu32-lt st x e = unsigned_loop-lt 5 st 0 0 0 x (omega arith) e
