-- ===== src/Stream.antt =====
-- src/utils/stream.h: a byte buffer with a reading position. The pointers `s.ptr` and `p` are the list
-- of the buffer's bytes and an offset into it; `p` may stand at the end.
pub mod Leb
pub mod Unchecked
pub mod Grammar
pub mod Moves
use silverfir.Prelude.{
  ℕ, zero, suc, ◌+◌, ◌-◌, ◌*◌, ◌^◌, ◌≤◌, List, get_or, take, drop, length, ltb, leb, ◌!=◌, bit_or,
  bit_and, if◌then◌else◌, ℤ, pos, negsuc, u32,
}
use silverfir.Result.{Result, ok, err, general, malformed, ◌>>=◌}

pub record Stream : Type 0 where
  pub s : List ℕ
  pub p : ℕ

unfoldable pub stream_from : List ℕ → Stream
stream_from bytes = record { s = bytes; p = 0 }

-- `stream_is_valid`, which every operation asserts.
abbrev pub IsValid : Stream → Type 0
IsValid st = st.p ≤ length st.s

unfoldable pub remaining : Stream → ℕ
remaining st = length st.s - st.p

-- `st->p[i]`
unfoldable pub byte : Stream → ℕ → ℕ
byte st i = get_or st.s (st.p + i) 0

abbrev pub advance : Stream → ℕ → Stream
advance st n = record st { p = st.p + n }

unfoldable pub read_u32 : Stream → Result (ℕ × Stream)
unfolding remaining byte
read_u32 st =
    if ltb (remaining st) 4
    then err malformed
    else ok (
      u32 (
          bit_or (bit_or (bit_or (byte st 0) (byte st 1 * 2 ^ 8)) (byte st 2 * 2 ^ 16))
            (byte st 3 * 2 ^ 24)),
      advance st 4,
    )

unfoldable pub peek_u8 : Stream → Result ℕ
unfolding remaining byte
peek_u8 st = if ltb (remaining st) 1 then err malformed else ok (byte st 0)

unfoldable pub read_u8 : Stream → Result (ℕ × Stream)
unfolding peek_u8
read_u8 st = do u ← peek_u8 st; ok (u, advance st 1)

-- The slice that begins at the reading position, and the stream behind it.
unfoldable pub slice : Stream → ℕ → Result (Stream × Stream)
unfolding remaining
slice st size =
    if ltb (remaining st) size
    then err malformed
    else ok (record { s = take size (drop st.p st.s); p = 0 }, advance st size)

unfoldable pub seek : Stream → ℤ → Result Stream
seek st (pos n) = if ltb (length st.s) (st.p + n) then err general else ok (advance st n)
seek st (negsuc n) = if ltb st.p (suc n) then err general else ok (record st { p = st.p - suc n })

unfoldable pub read_vu7 : Stream → Result (ℕ × Stream)
unfolding remaining byte
read_vu7 st =
    if ltb (remaining st) 1
    then err malformed
    else if leb 0x80 (byte st 0)
    then err malformed
    else ok (byte st 0, advance st 1)

-- The `i8` is its bit pattern, so that a negative number is at least 0x80.
unfoldable pub read_vi7 : Stream → Result (ℕ × Stream)
unfolding remaining byte
read_vi7 st =
    if ltb (remaining st) 1
    then err malformed
    else if leb 0x80 (byte st 0)
    then err malformed
    else ok
        (if bit_and (byte st 0) 0x40 != 0 then bit_or (byte st 0) 0x80 else byte st 0, advance st 1)

-- A float is its bit pattern, lowest byte first.
le_bytes : Stream → ℕ → ℕ → ℕ
unfolding byte
le_bytes st i zero = 0
le_bytes st i (suc n) = bit_or (byte st i) (le_bytes st (i + 1) n * 2 ^ 8)

unfoldable pub read_f32 : Stream → Result (ℕ × Stream)
unfolding remaining le_bytes
read_f32 st = if ltb (remaining st) 4 then err malformed else ok (le_bytes st 0 4, advance st 4)

unfoldable pub read_f64 : Stream → Result (ℕ × Stream)
unfolding remaining le_bytes
read_f64 st = if ltb (remaining st) 8 then err malformed else ok (le_bytes st 0 8, advance st 8)
