-- ===== src/Stream/Leb/Signed.antt =====
-- The checked signed decoders of src/utils/stream.h accept exactly the grammar of the binary format.
use silverfir.Prelude.{
  ℕ, zero, suc, ◌+◌, ◌-◌, ◌*◌, ◌%◌, ◌^◌, ◌≤◌, ◌<◌, ◌≡◌, ◌⊎◌, ◌∙◌, refl, sym, ap, arith, true, false,
  not, ltb, leb, ◌==◌, inl, inr, Bool-cases, IsByte, All, drop, All-get_or, pow-add,
}
use native.Mathlib.Nat.{add-zero}
use silverfir.Result.{err, malformed}
use silverfir.Stream.{Stream, remaining, byte}
use silverfir.Stream.Leb.{max_len, bad_sign_bits, add_group, signed_loop, read_vi32, read_vi64}
use silverfir.Stream.Leb.Unsigned.{
  top_bit, answer, bytes_from, no_bytes_from, mul-le, pow_wide, answer-prepend, answer_start,
  from_grammar,
}
use silverfir.Stream.Grammar.{signed}
use silverfir.Stream.Leb.SignBits.{
  accepts, pattern_of, last_of, signed_last, signed_more, signed_too_long, sign_bit,
  extend_sign_lem, group_lem, last_of-low, last_of-high, last_of-good, last_of-wrong, negative_lem,
  bad_32, top_32, bad_64, top_64,
}

module _ (w n0 s0 : ℕ) (width : (w ≡ 32) ⊎ (w ≡ 64))
    (bad : (b : ℕ) → IsByte b → b < 128 → bad_sign_bits w b ≡ not (accepts n0 b))
    (top : (b result : ℕ)
      → b < 128
      → result < 2 ^ s0
      → accepts n0 b ≡ true
      → add_group 64 result b s0 % 2 ^ w ≡ result + pattern_of n0 b * 2 ^ s0)
    (st : Stream) (bytes : All IsByte st.s) where
  here_byte : (offset : ℕ) → IsByte (byte st offset)
  unfolding byte
  here_byte offset = All-get_or IsByte st.s (st.p + offset) 0 bytes (omega arith)

  no_round :
      (rounds offset shift result : ℕ)
      → leb (remaining st) offset ≡ true
      → signed_loop (suc rounds) w st offset shift result ≡ err malformed
  unfolding signed_loop
  no_round rounds offset shift result past = ground arith

  next_round :
      (rounds offset shift result : ℕ)
      → leb (remaining st) offset ≡ false
      → 128 ≤ byte st offset
      → result < 2 ^ shift
      → 128 * 2 ^ shift ≤ 2 ^ w
      → signed_loop (suc rounds) w st offset shift result
        ≡ signed_loop rounds w st
            (offset + 1)
            (shift + 7)
            (result + (byte st offset - 128) * 2 ^ shift)
  unfolding signed_loop
  next_round rounds offset shift result more hb hr fits =
      let low : w ≤ 64 = grind arith in
      let e : byte st offset % 128 ≡ byte st offset - 128 = omega (arith, here_byte offset) in
      let g =
        rw e at (group_lem w result (byte st offset) shift low (here_byte offset) hr fits).0 in
      rw g (ground (arith, top_bit (byte st offset) (here_byte offset), here_byte offset))

  -- A last byte before the maximal length.
  last_round :
      (rounds n offset shift result : ℕ)
      → leb (remaining st) offset ≡ false
      → byte st offset < 128
      → result < 2 ^ shift
      → w ≡ n + shift
      → 8 ≤ n
      → (offset + 1 == max_len w) ≡ false
      → signed_loop (suc rounds) w st offset shift result
        ≡ answer st offset shift result (last_of n (byte st offset))
  unfolding signed_loop
  last_round rounds n offset shift result more hb hr hw hn inner =
      let low : w ≤ 64 = grind arith in
      let b = byte st offset in
      let wide = pow_wide n (omega arith) in
      let half = pow_wide (n - 1) (omega arith) in
      let e : b % 128 ≡ b = omega arith in
      let split : 2 ^ w ≡ 2 ^ n * 2 ^ shift = rw hw (pow-add n shift) in
      let fits : 128 * 2 ^ shift ≤ 2 ^ w =
        omega (arith, split, mul-le 128 (2 ^ n) (2 ^ shift) wide) in
      let g = rw e at (group_lem w result b shift low (here_byte offset) hr fits) in
      let top_sign = sign_bit b (here_byte offset) hb in
      elim (Bool-cases (ltb b 64)) [
        | inl positive ↦
            rw (last_of-low n b (ground arith) half, g.0)
              (ground (arith, top_bit b (here_byte offset), top_sign))
        | inr negative ↦
            rw
              (
                last_of-high n b (ground arith) half,
                sym (negative_lem w n result b shift hw wide),
                g.0,
              )
              (let small : result + b * 2 ^ shift < 2 ^ (shift + 7) =
                  omega (arith, hr, pow-add shift 7, mul-le b 127 (2 ^ shift) (omega arith)) in
                let filled =
                  extend_sign_lem w (result + b * 2 ^ shift) (shift + 7) width (omega arith)
                    small in
                ground (arith, top_bit b (here_byte offset), top_sign, filled))
      ]

  final_round :
      (offset result : ℕ)
      → leb (remaining st) offset ≡ false
      → offset + 1 ≡ max_len w
      → w ≤ s0 + 7
      → result < 2 ^ s0
      → byte st offset < 128
      → signed_loop 1 w st offset s0 result
        ≡ answer st offset s0 result (last_of n0 (byte st offset))
  unfolding signed_loop
  final_round offset result more hm hs hr hb =
      let b = byte st offset in
      elim (Bool-cases (accepts n0 b)) [
        | inl good ↦
            rw (last_of-good n0 b good, top b result hb hr good)
              (let fine : bad_sign_bits w b ≡ false = bad b (here_byte offset) hb ∙ ap not good in
                rw fine (ground (arith, top_bit b (here_byte offset))))
        | inr wrong ↦ rw (last_of-wrong n0 b wrong) (
            let refused : bad_sign_bits w b ≡ true = bad b (here_byte offset) hb ∙ ap not wrong in
            rw refused (ground (arith, top_bit b (here_byte offset))))
      ]

  final_long :
      (offset result : ℕ)
      → leb (remaining st) offset ≡ false
      → 128 ≤ byte st offset
      → signed_loop 1 w st offset s0 result ≡ err malformed
  unfolding signed_loop
  final_long offset result more hb =
      ground (arith, top_bit (byte st offset) (here_byte offset), here_byte offset)

  signed_loop_lem :
      (rounds n offset shift result : ℕ)
      → max_len w ≡ offset + suc rounds
      → shift ≡ 7 * offset
      → w ≡ n + shift
      → n ≡ n0 + 7 * rounds
      → s0 ≡ shift + 7 * rounds
      → result < 2 ^ shift
      → signed_loop (suc rounds) w st offset shift result
        ≡ answer st offset shift result (signed n (drop (st.p + offset) st.s))
  signed_loop_lem zero n offset shift result hm hs hw hn hr res =
      elim (Bool-cases (leb (remaining st) offset)) [
        | inl past ↦
            rw (no_bytes_from st offset past)
              (unfold signed in no_round zero offset shift result past)
        | inr more ↦ rw (bytes_from st offset more) (
            let b = byte st offset in
            let e : shift ≡ s0 = omega arith in
            let e' : n ≡ n0 = omega arith in
            elim (Bool-cases (ltb b 128)) [
              | inl small ↦
                  rw (signed_last n b _ (ground arith), e, e')
                    (final_round offset result more (omega arith) (omega arith) (rw e at res)
                      (ground arith))
              | inr large ↦
                  rw (signed_too_long n b _ (ground arith) (omega arith), e)
                    (final_long offset result more (ground arith))
            ])
      ]
  signed_loop_lem (suc rounds) n offset shift result hm hs hw hn hr res =
      elim (Bool-cases (leb (remaining st) offset)) [
        | inl past ↦
            rw (no_bytes_from st offset past)
              (unfold signed in no_round (suc rounds) offset shift result past)
        | inr more ↦ rw (bytes_from st offset more) (
            let b = byte st offset in
            let e : st.p + (offset + 1) ≡ suc (st.p + offset) = omega arith in
            let wide : 128 * 2 ^ shift ≤ 2 ^ w =
              rw (hw, pow-add n shift)
                (mul-le 128 (2 ^ n) (2 ^ shift) (pow_wide n (omega arith))) in
            elim (Bool-cases (ltb b 128)) [
              | inl small ↦ rw (signed_last n b _ (ground arith)) (
                  last_round (suc rounds) n offset shift result more (ground arith) res hw
                    (omega arith) (ground arith))
              | inr large ↦ rw (signed_more n b _ (ground arith) (omega arith)) (
                  next_round (suc rounds) offset shift result more (ground arith) res wide
                  ∙ signed_loop_lem rounds (n - 7) (offset + 1) (shift + 7)
                      (result + (b - 128) * 2 ^ shift) (omega arith) (omega arith) (omega arith)
                      (omega arith) (omega arith)
                      (omega (
                        arith,
                        here_byte offset,
                        mul-le (b - 128) 127 (2 ^ shift) (omega (arith, here_byte offset)),
                        pow-add shift 7,
                      ))
                  ∙ rw e (
                      answer-prepend st b offset shift result
                        (signed (n - 7) (drop (suc (st.p + offset)) st.s))))
            ])
      ]

-- On every stream of bytes `stream_read_vi32` accepts exactly the `s32` of the binary format: it
-- returns the two's complement pattern of the number and moves behind it, and it fails as malformed
-- on any other input.
pub read_vi32-signed :
    (st : Stream) → All IsByte st.s → read_vi32 st ≡ from_grammar st (signed 32 (drop st.p st.s))
unfolding read_vi32
read_vi32-signed st bytes =
    signed_loop_lem 32 4 28 (inl refl) bad_32 top_32 st bytes 4 32 0 0 0 refl refl refl refl refl
      (omega arith)
    ∙ answer_start st (signed 32 (drop (st.p + 0) st.s))
    ∙ rw (add-zero st.p)

-- The same of `stream_read_vi64` and the `s64` of the format, for every stream of bytes.
pub read_vi64-signed :
    (st : Stream) → All IsByte st.s → read_vi64 st ≡ from_grammar st (signed 64 (drop st.p st.s))
unfolding read_vi64
read_vi64-signed st bytes =
    signed_loop_lem 64 1 63 (inr refl) bad_64 top_64 st bytes 9 64 0 0 0 refl refl refl refl refl
      (omega arith)
    ∙ answer_start st (signed 64 (drop (st.p + 0) st.s))
    ∙ rw (add-zero st.p)
