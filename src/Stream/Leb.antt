-- ===== src/Stream/Leb.antt =====
-- The checked LEB128 decoders of src/utils/stream.h. The two macros are one loop each, over the width
-- of the type.
pub mod Unsigned
pub mod Bounds
pub mod SignBits
pub mod Signed
use silverfir.Prelude.{
  ℕ, zero, suc, Bool, ◌+◌, ◌-◌, ◌/◌, ◌%◌, ◌^◌, ltb, leb, ◌==◌, ◌!=◌, ◌&&◌, bit_or, bit_and,
  if◌then◌else◌, shl_wrap,
}
use silverfir.Result.{Result, ok, err, malformed}
use silverfir.Stream.{Stream, remaining, byte, advance}

-- `LEB_MAX_LEN` and `LEB_LAST_BYTE_MASK`; the mask is an `int`.
abbrev pub max_len : ℕ → ℕ
max_len w = (w - 1) / 7 + 1

abbrev pub last_byte_mask : ℕ → ℕ
last_byte_mask w = 2 ^ 32 - 2 ^ (w % 7)

-- `LEB_LAST_BYTE_MASK(type) >> 1`, which copies the sign bit of the `int`.
abbrev pub sign_mask : ℕ → ℕ
sign_mask w = last_byte_mask w / 2 + 2 ^ 31

-- `result |= (type)(b & 0x7f) << shift`
abbrev pub add_group : ℕ → ℕ → ℕ → ℕ → ℕ
add_group w result b shift = bit_or result (shl_wrap w (bit_and b 0x7f) shift)

-- STREAM_READ_LEB_UNSIGNED_DECL. The first argument counts the rounds that `offset <
-- LEB_MAX_LEN(type)` leaves.
unfoldable pub unsigned_loop : ℕ → ℕ → Stream → ℕ → ℕ → ℕ → Result (ℕ × Stream)
unfolding remaining byte
unsigned_loop zero w st offset shift result = err malformed
unsigned_loop (suc rounds) w st offset shift result =
    let b = byte st offset in
    let result' = add_group w result b shift in
    let next = unsigned_loop rounds w st (offset + 1) (shift + 7) result' in
    if leb (remaining st) offset
    then err malformed
    else if bit_and b 0x80 == 0
    then if offset + 1 == max_len w && bit_and b (last_byte_mask w) != 0
      then err malformed
      else ok (result', advance st (offset + 1))
    else next

unfoldable pub read_vu32 : Stream → Result (ℕ × Stream)
read_vu32 st = unsigned_loop (max_len 32) 32 st 0 0 0

unfoldable pub read_vu64 : Stream → Result (ℕ × Stream)
read_vu64 st = unsigned_loop (max_len 64) 64 st 0 0 0

-- The test on the last byte of a signed number: its unused bits repeat the sign.
abbrev pub bad_sign_bits : ℕ → ℕ → Bool
bad_sign_bits w b =
    if bit_and b 0x40 == 0
    then bit_and b (sign_mask w) != 0
    else bit_and (255 - bit_or b 0x80) (sign_mask w) != 0

-- `(utype)result | ((utype)-1) << shift`, cut to `type`; `utype` has 64 bits.
abbrev pub extend_sign : ℕ → ℕ → ℕ → ℕ
extend_sign w result shift = bit_or result (shl_wrap 64 (2 ^ 64 - 1) shift) % 2 ^ w

-- STREAM_READ_LEB_SIGNED_DECL; the result is a bit pattern.
unfoldable pub signed_loop : ℕ → ℕ → Stream → ℕ → ℕ → ℕ → Result (ℕ × Stream)
unfolding remaining byte
signed_loop zero w st offset shift result = err malformed
signed_loop (suc rounds) w st offset shift result =
    let b = byte st offset in
    let result' = add_group 64 result b shift % 2 ^ w in
    let next = signed_loop rounds w st (offset + 1) (shift + 7) result' in
    if leb (remaining st) offset
    then err malformed
    else if bit_and b 0x80 == 0
    then if offset + 1 == max_len w && bad_sign_bits w b
      then err malformed
      else ok (
        if ltb (shift + 7) w && bit_and b 0x40 != 0
            then extend_sign w result' (shift + 7)
            else result',
        advance st (offset + 1),
      )
    else next

unfoldable pub read_vi32 : Stream → Result (ℕ × Stream)
read_vi32 st = signed_loop (max_len 32) 32 st 0 0 0

unfoldable pub read_vi64 : Stream → Result (ℕ × Stream)
read_vi64 st = signed_loop (max_len 64) 64 st 0 0 0
