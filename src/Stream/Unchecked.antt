-- ===== src/Stream/Unchecked.antt =====
-- The unchecked, unrolled LEB128 decoders that the interpreters use on validated code. They take
-- no stream but a pointer, here an offset into the bytes, and return the new pointer.
pub mod Agreement
use silverfir.Prelude.{
  ℕ, Bool, ◌+◌, ◌-◌, ◌^◌, ◌%◌, List, get_or, ◌==◌, bit_or, bit_and, if◌then◌else◌, shl_wrap,
  sub_wrap,
}

-- `*(ptr++)`
abbrev pub at : List ℕ → ℕ → ℕ
at s p = get_or s p 0

-- `result += b << shift` and `result -= 0x80 << shift` on w bits.
abbrev pub plus_group : ℕ → ℕ → ℕ → ℕ → ℕ
plus_group w result b shift = (result + shl_wrap w b shift) % 2 ^ w

abbrev pub minus_top : ℕ → ℕ → ℕ → ℕ
minus_top w result shift = sub_wrap w result (shl_wrap w 0x80 shift)

abbrev pub is_last : ℕ → Bool
is_last b = bit_and b 0x80 == 0

unfoldable pub read_vu32_unchecked : List ℕ → ℕ → ℕ × ℕ
read_vu32_unchecked s p =
    let r0 = plus_group 32 0 (at s p) 0 in
    let r1 = plus_group 32 (minus_top 32 r0 0) (at s (p + 1)) 7 in
    let r2 = plus_group 32 (minus_top 32 r1 7) (at s (p + 2)) 14 in
    let r3 = plus_group 32 (minus_top 32 r2 14) (at s (p + 3)) 21 in
    let r4 = plus_group 32 (minus_top 32 r3 21) (at s (p + 4)) 28 in
    if is_last (at s p)
    then (r0, p + 1)
    else if is_last (at s (p + 1))
    then (r1, p + 2)
    else if is_last (at s (p + 2))
    then (r2, p + 3)
    else if is_last (at s (p + 3))
    then (r3, p + 4)
    else (r4, p + 5)

-- `if (b & 0x40) result |= ((u32)-1) << shift`
abbrev pub sign_fill : ℕ → ℕ → ℕ → ℕ → ℕ
sign_fill w result b shift =
    if bit_and b 0x40 == 0 then result else bit_or result (shl_wrap w (2 ^ w - 1) shift)

unfoldable pub read_vi32_unchecked : List ℕ → ℕ → ℕ × ℕ
read_vi32_unchecked s p =
    let r0 = plus_group 32 0 (at s p) 0 in
    let r1 = plus_group 32 (minus_top 32 r0 0) (at s (p + 1)) 7 in
    let r2 = plus_group 32 (minus_top 32 r1 7) (at s (p + 2)) 14 in
    let r3 = plus_group 32 (minus_top 32 r2 14) (at s (p + 3)) 21 in
    let r4 = plus_group 32 (minus_top 32 r3 21) (at s (p + 4)) 28 in
    if is_last (at s p)
    then (sign_fill 32 r0 (at s p) 7, p + 1)
    else if is_last (at s (p + 1))
    then (sign_fill 32 r1 (at s (p + 1)) 14, p + 2)
    else if is_last (at s (p + 2))
    then (sign_fill 32 r2 (at s (p + 2)) 21, p + 3)
    else if is_last (at s (p + 3))
    then (sign_fill 32 r3 (at s (p + 3)) 28, p + 4)
    else if is_last (at s (p + 4))
    then (r4, p + 5)
    else (sign_fill 32 r4 (at s (p + 4)) 0, p + 5)
