-- ===== src/Stream/Leb/Unsigned.antt =====
-- The checked unsigned decoders accept exactly the grammar of the binary format.
use silverfir.Prelude.{
  ℕ, zero, suc, ◌+◌, ◌-◌, ◌*◌, ◌/◌, ◌%◌, ◌^◌, ◌≤◌, ◌<◌, ◌≡◌, ◌∙◌, refl, ap, arith, List, [], ◌∷◌,
  true, false, Option, none, some, ltb, leb, ◌==◌, ◌!=◌, ◌&&◌, if◌then◌else◌, inl, inr, Bool-cases,
  IsByte, bit_and, All, drop, passes_below, drop-get_or, drop_past, All-get_or, pow-add, pow_pos,
}
use native.Mathlib.Nat.{add-zero, mod-eq_of_lt}
use silverfir.Prelude.Bits.{bit_or_sum, byte_table}
use silverfir.Result.{Result, ok, err, malformed}
use silverfir.Stream.{Stream, remaining, byte, advance}
use silverfir.Stream.Leb.{max_len, last_byte_mask, add_group, unsigned_loop, read_vu32, read_vu64}
use silverfir.Stream.Grammar.{unsigned, prepend}

pub low_bits : (b : ℕ) → IsByte b → bit_and b 0x7f ≡ b % 128
unfolding passes_below
low_bits b h = byte_table (λ x. bit_and x 0x7f) (λ x. x % 128) b refl h

pub top_bit : (b : ℕ) → IsByte b → bit_and b 0x80 ≡ b / 128 * 128
unfolding passes_below
top_bit b h = byte_table (λ x. bit_and x 0x80) (λ x. x / 128 * 128) b refl h

-- What a decoder answers, given the grammar's reading of the bytes from `offset` on.
abbrev pub answer : Stream → ℕ → ℕ → ℕ → Option (ℕ × ℕ) → Result (ℕ × Stream)
answer st offset shift result none = err malformed
answer st offset shift result (some (v, k)) = ok (result + v * 2 ^ shift, advance st (offset + k))

pub add_group_lem :
    (w result b shift : ℕ)
    → IsByte b
    → result < 2 ^ shift
    → b % 128 * 2 ^ shift < 2 ^ w
    → add_group w result b shift ≡ result + b % 128 * 2 ^ shift
add_group_lem w result b shift hb hr fits =
    rw (low_bits b hb, mod-eq_of_lt fits) (bit_or_sum shift result (b % 128) hr)

-- The bytes from `offset` on, where there is one.
pub bytes_from :
    (st : Stream) (offset : ℕ)
    → leb (remaining st) offset ≡ false
    → drop (st.p + offset) st.s ≡ byte st offset ∷ drop (suc (st.p + offset)) st.s
unfolding remaining byte
bytes_from st offset h = drop-get_or (st.p + offset) st.s 0 (ground arith)

pub no_bytes_from :
    (st : Stream) (offset : ℕ) → leb (remaining st) offset ≡ true → drop (st.p + offset) st.s ≡ []
unfolding remaining
no_bytes_from st offset h = drop_past (st.p + offset) st.s (ground arith)

pub mul-lt : (g n m : ℕ) → g < n → 1 ≤ m → g * m < n * m
mul-lt g n m h k = grind arith

pub mul-le : (g n m : ℕ) → g ≤ n → g * m ≤ n * m
mul-le g n m h = grind arith

pub pow_wide : (n : ℕ) → 7 ≤ n → 128 ≤ 2 ^ n
pow_wide n h =
    let e : n ≡ 7 + (n - 7) = omega arith in
    rw e (omega (arith, pow-add 7 (n - 7), pow_pos (n - 7)))

unsigned_last : (n b : ℕ) (bs : List ℕ) → b < 128 → b < 2 ^ n → unsigned n (b ∷ bs) ≡ some (b, 1)
unfolding unsigned
unsigned_last n b bs h k = ground arith

unsigned_more :
    (n b : ℕ) (bs : List ℕ)
    → 128 ≤ b
    → 7 < n
    → unsigned n (b ∷ bs) ≡ prepend b (unsigned (n - 7) bs)
unfolding unsigned
unsigned_more n b bs h k = ground arith

-- A group in front of a number, as the decoders and as the grammar put it.
pub answer-prepend :
    (st : Stream) (b offset shift result : ℕ) (rest : Option (ℕ × ℕ))
    → answer st (offset + 1) (shift + 7) (result + (b - 128) * 2 ^ shift) rest
      ≡ answer st offset shift result (prepend b rest)
answer-prepend st b offset shift result none = refl
answer-prepend st b offset shift result (some (m, k)) =
    ground (arith, ap (λ (t : ℕ). m * t) (pow-add shift 7))

module _ (w : ℕ)
    (last : (b : ℕ)
      → IsByte b
      → b < 128
      → (bit_and b (last_byte_mask w) != 0) ≡ leb (2 ^ (w % 7)) b)
    (st : Stream) (bytes : All IsByte st.s) where
  here_byte : (offset : ℕ) → IsByte (byte st offset)
  unfolding byte
  here_byte offset = All-get_or IsByte st.s (st.p + offset) 0 bytes (omega arith)

  -- A round on a byte with no top bit, and on one with it.
  last_round :
      (rounds offset shift result : ℕ)
      → leb (remaining st) offset ≡ false
      → byte st offset < 128
      → result < 2 ^ shift
      → byte st offset * 2 ^ shift < 2 ^ w
      → (offset + 1 == max_len w) ≡ false
      → unsigned_loop (suc rounds) w st offset shift result
        ≡ ok (result + byte st offset * 2 ^ shift, advance st (offset + 1))
  unfolding unsigned_loop
  last_round rounds offset shift result more hb hr fits inner = ground (
    arith,
    top_bit (byte st offset) (here_byte offset),
    add_group_lem w result (byte st offset) shift (here_byte offset) hr,
  )

  next_round :
      (rounds offset shift result : ℕ)
      → leb (remaining st) offset ≡ false
      → 128 ≤ byte st offset
      → result < 2 ^ shift
      → 128 * 2 ^ shift ≤ 2 ^ w
      → unsigned_loop (suc rounds) w st offset shift result
        ≡ unsigned_loop rounds w st
            (offset + 1)
            (shift + 7)
            (result + (byte st offset - 128) * 2 ^ shift)
  unfolding unsigned_loop
  next_round rounds offset shift result more hb hr fits = ground (
    arith,
    top_bit (byte st offset) (here_byte offset),
    here_byte offset,
    add_group_lem w result (byte st offset) shift (here_byte offset) hr,
    mul-lt (byte st offset % 128) 128 (2 ^ shift),
    pow_pos shift,
  )

  -- The round that uses up `LEB_MAX_LEN`.
  final_round :
      (offset shift result : ℕ)
      → leb (remaining st) offset ≡ false
      → offset + 1 ≡ max_len w
      → result < 2 ^ shift
      → (byte st offset < 2 ^ (w % 7) → byte st offset < 128 → byte st offset * 2 ^ shift < 2 ^ w)
      → unsigned_loop 1 w st offset shift result ≡ (
          if ltb (byte st offset) 128 && ltb (byte st offset) (2 ^ (w % 7))
          then ok (result + byte st offset * 2 ^ shift, advance st (offset + 1))
          else err malformed)
  unfolding unsigned_loop
  final_round offset shift result more hm hr fits = ground (
    arith,
    top_bit (byte st offset) (here_byte offset),
    here_byte offset,
    last (byte st offset),
    add_group_lem w result (byte st offset) shift (here_byte offset) hr,
  )

  -- Where another round follows, a whole group fits the type.
  wide_round : (n shift : ℕ) → w ≡ n + shift → 7 ≤ n → (128 ≤ 2 ^ n) × (128 * 2 ^ shift ≤ 2 ^ w)
  wide_round n shift hw hn =
      rw hw (rw (pow-add n shift) (pow_wide n hn, mul-le 128 (2 ^ n) (2 ^ shift) (pow_wide n hn)))

  no_round :
      (rounds offset shift result : ℕ)
      → leb (remaining st) offset ≡ true
      → unsigned_loop (suc rounds) w st offset shift result ≡ err malformed
  unfolding unsigned_loop
  no_round rounds offset shift result past = ground arith

  -- The rounds that `offset` has gone through leave n bits of the type.
  unsigned_loop_lem :
      (rounds n offset shift result : ℕ)
      → max_len w ≡ offset + suc rounds
      → shift ≡ 7 * offset
      → w ≡ n + shift
      → n < 7 * suc rounds
      → 7 * rounds < n
      → result < 2 ^ shift
      → unsigned_loop (suc rounds) w st offset shift result
        ≡ answer st offset shift result (unsigned n (drop (st.p + offset) st.s))
  unsigned_loop_lem zero n offset shift result hm hs hw hn hr res =
      elim (Bool-cases (leb (remaining st) offset)) [
        | inl past ↦
            rw (no_bytes_from st offset past)
              (unfold unsigned in no_round zero offset shift result past)
        | inr more ↦ rw (bytes_from st offset more) (
            let e : w % 7 ≡ n = omega arith in
            unfold unsigned in
            ground (
              arith,
              e,
              ap (λ (t : ℕ). 2 ^ t) e,
              ap (λ (t : ℕ). 2 ^ t) hw,
              pow-add n shift,
              pow_pos shift,
              mul-lt (byte st offset) (2 ^ n) (2 ^ shift),
              final_round offset shift result more (omega arith) res,
            ))
      ]
  unsigned_loop_lem (suc rounds) n offset shift result hm hs hw hn hr res =
      elim (Bool-cases (leb (remaining st) offset)) [
        | inl past ↦
            rw (no_bytes_from st offset past)
              (unfold unsigned in no_round (suc rounds) offset shift result past)
        | inr more ↦ rw (bytes_from st offset more) (
            let b = byte st offset in
            let e : st.p + (offset + 1) ≡ suc (st.p + offset) = omega arith in
            let wide = wide_round n shift hw (omega arith) in
            elim (Bool-cases (ltb b 128)) [
              | inl small ↦ rw (unsigned_last n b _ (ground arith) (ground arith)) (
                  last_round (suc rounds) offset shift result more (ground arith) res
                    (ground (arith, mul-lt b 128 (2 ^ shift), pow_pos shift)) (ground arith))
              | inr large ↦ rw (unsigned_more n b _ (ground arith) (omega arith)) (
                  next_round (suc rounds) offset shift result more (ground arith) res wide.1
                  ∙ unsigned_loop_lem rounds (n - 7) (offset + 1) (shift + 7)
                      (result + (b - 128) * 2 ^ shift) (omega arith) (omega arith) (omega arith)
                      (omega arith) (omega arith)
                      (omega (
                        arith,
                        here_byte offset,
                        mul-le (b - 128) 127 (2 ^ shift) (omega (arith, here_byte offset)),
                        pow-add shift 7,
                      ))
                  ∙ rw e (
                      answer-prepend st b offset shift result
                        (unsigned (n - 7) (drop (suc (st.p + offset)) st.s))))
            ])
      ]

mask_32 : (b : ℕ) → IsByte b → b < 128 → (bit_and b (last_byte_mask 32) != 0) ≡ leb (2 ^ (32 % 7)) b
unfolding passes_below
mask_32 b h k =
    ground (arith, byte_table (λ x. bit_and x (last_byte_mask 32)) (λ x. x / 16 * 16) b refl h)

mask_64 : (b : ℕ) → IsByte b → b < 128 → (bit_and b (last_byte_mask 64) != 0) ≡ leb (2 ^ (64 % 7)) b
unfolding passes_below
mask_64 b h k =
    ground (arith, byte_table (λ x. bit_and x (last_byte_mask 64)) (λ x. x / 2 * 2) b refl h)

abbrev pub from_grammar : Stream → Option (ℕ × ℕ) → Result (ℕ × Stream)
from_grammar st none = err malformed
from_grammar st (some (v, k)) = ok (v, advance st k)

pub answer_start : (st : Stream) (o : Option (ℕ × ℕ)) → answer st 0 0 0 o ≡ from_grammar st o
answer_start st none = refl
answer_start st (some (v, k)) = ground arith

-- On every stream of bytes `stream_read_vu32` accepts exactly the `u32` of the binary format: it
-- returns the number and moves behind it, and it fails as malformed on any other input.
pub read_vu32-unsigned :
    (st : Stream) → All IsByte st.s → read_vu32 st ≡ from_grammar st (unsigned 32 (drop st.p st.s))
unfolding read_vu32
read_vu32-unsigned st bytes =
    unsigned_loop_lem 32 mask_32 st bytes 4 32 0 0 0 refl refl refl (omega arith) (omega arith)
      (omega arith)
    ∙ answer_start st (unsigned 32 (drop (st.p + 0) st.s))
    ∙ rw (add-zero st.p)

-- The same of `stream_read_vu64` and the `u64` of the format, for every stream of bytes.
pub read_vu64-unsigned :
    (st : Stream) → All IsByte st.s → read_vu64 st ≡ from_grammar st (unsigned 64 (drop st.p st.s))
unfolding read_vu64
read_vu64-unsigned st bytes =
    unsigned_loop_lem 64 mask_64 st bytes 9 64 0 0 0 refl refl refl (omega arith) (omega arith)
      (omega arith)
    ∙ answer_start st (unsigned 64 (drop (st.p + 0) st.s))
    ∙ rw (add-zero st.p)
