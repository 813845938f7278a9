-- ===== src/Parser/Header.antt =====
-- The header of a module in src/runtime/parser.c: the magic number and the version.
use silverfir.Prelude.{
  ℕ, zero, suc, ◌+◌, ◌-◌, ◌*◌, ◌^◌, ◌<◌, ◌≤◌, ◌≡◌, ◌≢◌, refl, ap, Bool, arith, ltb, bit_or, List,
  [], ◌∷◌, ◌++◌, length, get_or, take, All, All-get_or, IsByte, u32, if◌then◌else◌,
}
use silverfir.Prelude.Bits.{bit_or_sum}
use silverfir.Result.{ok, err, malformed}
use silverfir.Stream.{Stream, stream_from, remaining, byte, advance, read_u32}
use silverfir.Parser.Binary.{parse_module, module_init}

-- "\0asm" and the version 1, lowest byte first.
abbrev pub header : List ℕ
header = 0x00 ∷ 0x61 ∷ 0x73 ∷ 0x6d ∷ 0x01 ∷ 0x00 ∷ 0x00 ∷ 0x00 ∷ []

word_of :
    (a b c d : ℕ)
    → IsByte a
    → IsByte b
    → IsByte c
    → IsByte d
    → u32 (bit_or (bit_or (bit_or a (b * 2 ^ 8)) (c * 2 ^ 16)) (d * 2 ^ 24))
      ≡ a + b * 2 ^ 8 + c * 2 ^ 16 + d * 2 ^ 24
word_of a b c d ha hb hc hd =
    let e1 = bit_or_sum 8 a b ha in
    let e2 = bit_or_sum 16 (a + b * 2 ^ 8) c (omega arith) in
    let e3 = bit_or_sum 24 (a + b * 2 ^ 8 + c * 2 ^ 16) d (omega arith) in
    rw (e1, e2, e3) (omega arith)

-- The word at the start of a buffer that is long enough.
abbrev le_word : List ℕ → ℕ → ℕ
le_word s p =
    get_or s p 0
    + get_or s (p + 1) 0 * 2 ^ 8
    + get_or s (p + 2) 0 * 2 ^ 16
    + get_or s (p + 3) 0 * 2 ^ 24

read_u32-word :
    (st : Stream)
    → All IsByte st.s
    → read_u32 st
      ≡ (if ltb (length st.s - st.p) 4 then err malformed else ok (le_word st.s st.p, advance st 4))
unfolding read_u32 remaining byte
read_u32-word st bytes =
    let at = λ (i : ℕ). All-get_or IsByte st.s i 0 bytes (omega arith) in
    let q : st.p + 0 ≡ st.p = omega arith in
    rw
      (
        q,
        word_of (get_or st.s st.p 0) (get_or st.s (st.p + 1) 0) (get_or st.s (st.p + 2) 0)
            (get_or st.s (st.p + 3) 0) (at st.p) (at (st.p + 1)) (at (st.p + 2)) (at (st.p + 3)),
      )
      refl

take-suc :
    (n : ℕ) (xs : List ℕ) → n < length xs → take (suc n) xs ≡ take n xs ++ (get_or xs n 0 ∷ [])
take-suc n [] h = absurd (omega arith)
take-suc zero (x ∷ xs) h = refl
take-suc (suc n) (x ∷ xs) h = ap (λ ys. x ∷ ys) (take-suc n xs (omega arith))

first_eight :
    (xs : List ℕ)
    → 8 ≤ length xs
    → le_word xs 0 ≡ 0x6d736100
    → le_word xs 4 ≡ 1
    → All IsByte xs
    → take 8 xs ≡ header
first_eight xs h magic version bytes =
    let at = λ (i : ℕ). All-get_or IsByte xs i 0 bytes (omega arith) in
    let e0 : get_or xs 0 0 ≡ 0 = omega (arith, magic, at 0, at 1, at 2, at 3) in
    let e1 : get_or xs 1 0 ≡ 0x61 = omega (arith, magic, at 0, at 1, at 2, at 3) in
    let e2 : get_or xs 2 0 ≡ 0x73 = omega (arith, magic, at 0, at 1, at 2, at 3) in
    let e3 : get_or xs 3 0 ≡ 0x6d = omega (arith, magic, at 0, at 1, at 2, at 3) in
    let e4 : get_or xs 4 0 ≡ 1 = omega (arith, version, at 4, at 5, at 6, at 7) in
    let e5 : get_or xs 5 0 ≡ 0 = omega (arith, version, at 4, at 5, at 6, at 7) in
    let e6 : get_or xs 6 0 ≡ 0 = omega (arith, version, at 4, at 5, at 6, at 7) in
    let e7 : get_or xs 7 0 ≡ 0 = omega (arith, version, at 4, at 5, at 6, at 7) in
    rw
      (
        take-suc 7 xs (omega arith),
        take-suc 6 xs (omega arith),
        take-suc 5 xs (omega arith),
        take-suc 4 xs (omega arith),
        take-suc 3 xs (omega arith),
        take-suc 2 xs (omega arith),
        take-suc 1 xs (omega arith),
        take-suc 0 xs (omega arith),
        e0,
        e1,
        e2,
        e3,
        e4,
        e5,
        e6,
        e7,
      )
      refl

-- Bytes that do not begin with the eight bytes of the header are rejected as malformed.
pub module_init-malformed :
    (is_valid_utf8 : List ℕ → Bool) (bin : List ℕ)
    → All IsByte bin
    → take 8 bin ≢ header
    → module_init is_valid_utf8 bin ≡ err malformed
unfolding module_init parse_module stream_from
module_init-malformed is_valid_utf8 bin bytes other =
    let first = read_u32-word (record { s = bin; p = 0 }) bytes in
    let second = read_u32-word (record { s = bin; p = 4 }) bytes in
    ground (
      arith,
      first,
      second,
      λ (h : 8 ≤ length bin) (a : le_word bin 0 ≡ 0x6d736100) (b : le_word bin 4 ≡ 1).
          other (first_eight bin h a b bytes),
    )
