-- ===== src/Interpreter/Numeric/Division.antt =====
-- Signed division and remainder of src/interpreter/in_place_dt.c, with the traps in front of them.
use native.Mathlib.Nat.{div-add-mod, mod-lt, mod-le, div-le_self, div-lt_self}
use native.Mathlib.Decide.{dec_lt}
use silverfir.Prelude.{
  ℕ, zero, suc, ◌+◌, ◌-◌, ◌*◌, ◌/◌, ◌%◌, ◌^◌, ◌≤◌, ◌<◌, ◌≡◌, refl, Bool, true, false, leb, ◌&&◌,
  ◌==◌, arith, pow_pos, Bool-cases, inl, inr, List, ◌∷◌, ◌⊎◌,
}
use silverfir.Result.{ok}
use silverfir.Interpreter.{Machine, pop}
use silverfir.Interpreter.Numeric.{is_neg, mag, of_mag, holds, differ, s_div, s_rem}
use silverfir.Interpreter.Numeric.Handlers.{exec_div_s, exec_rem_s}
use silverfir.Interpreter.Numeric.Signs.{double, top, mag-of_mag, is_neg-of_mag, mag-holds}

module _ (k a b : ℕ) (a_word : a < 2 ^ suc k) (b_word : b < 2 ^ suc k) (b_pos : 0 < b)
    (fits : ((a == 2 ^ k) && (b == 2 ^ suc k - 1)) ≡ false) where
  mag_pos : 0 < mag (suc k) b
  mag_pos =
      let d = double k in
      let t = top k in
      rw t (elim (Bool-cases (leb (2 ^ k) b)) [
        | inl e ↦ rw e (omega arith)
        | inr e ↦ rw e (omega arith)
      ])

  both_neg : leb (2 ^ k) a ≡ true → leb (2 ^ k) b ≡ true → (2 ^ suc k - a) / (2 ^ suc k - b) < 2 ^ k
  both_neg ea eb =
      let d = double k in
      let pa : 2 ^ k ≤ a = ground arith in
      let pb : 2 ^ k ≤ b = ground arith in
      elim (dec_lt 1 (2 ^ suc k - b)) [
        | yes more ↦
            let less = div-lt_self {n = 2 ^ suc k - a} {k = 2 ^ suc k - b} (omega arith) more in
            omega (arith, less)
        | no one ↦
            let least : b ≡ 2 ^ suc k - 1 = omega (arith, one) in
            let greater : 2 ^ k < a = ground arith in
            omega (arith, div-le_self (2 ^ suc k - a) (2 ^ suc k - b))
      ]

  pub quotient-holds :
      holds (suc k) (differ (is_neg (suc k) a) (is_neg (suc k) b)) (mag (suc k) a / mag (suc k) b)
      ≡ true
  quotient-holds =
      let t = top k in
      let d = double k in
      rw t (elim (Bool-cases (leb (2 ^ k) a)) [
        | inl ea ↦ elim (Bool-cases (leb (2 ^ k) b)) [
          | inl eb ↦ let less = both_neg ea eb in rw (ea, eb) (ground arith)
          | inr eb ↦ let less = div-le_self (2 ^ suc k - a) b in rw (ea, eb) (ground arith)
        ]
        | inr ea ↦ elim (Bool-cases (leb (2 ^ k) b)) [
          | inl eb ↦ let less = div-le_self a (2 ^ suc k - b) in rw (ea, eb) (ground arith)
          | inr eb ↦ let less = div-le_self a b in rw (ea, eb) (ground arith)
        ]
      ])

  pub remainder-holds : holds (suc k) (is_neg (suc k) a) (mag (suc k) a % mag (suc k) b) ≡ true
  remainder-holds =
      let t = top k in
      let d = double k in
      let less = mod-le (mag (suc k) a) (mag (suc k) b) in
      let whole = mag-holds k a a_word in
      elim (Bool-cases (is_neg (suc k) a)) [
        | inl e ↦ rw e (let w' = rw e at whole in ground arith)
        | inr e ↦ rw e (let w' = rw e at whole in ground arith)
      ]

is_zero-or_signed :
    (k : ℕ) (neg : Bool) (x : ℕ)
    → holds (suc k) neg x ≡ true
    → (mag (suc k) (of_mag (suc k) neg x) ≡ 0) ⊎ (is_neg (suc k) (of_mag (suc k) neg x) ≡ neg)
is_zero-or_signed k neg zero h = inl (mag-of_mag k neg zero h)
is_zero-or_signed k neg (suc x) h = inr (is_neg-of_mag k neg (suc x) h (omega arith))

module _ (k : ℕ) (m : Machine) (v1 v2 : ℕ) (rest : List ℕ) where
  -- Signed division and remainder on w = k + 1 bits, where the divisor is not 0 and the operands are not
  -- the least number and -1: both succeed and C defines both; the magnitude of the dividend is that of
  -- the divisor times that of the quotient plus that of the remainder, which is below the divisor's;
  -- the quotient is 0 or negative exactly where the signs of the operands differ, and the remainder is
  -- 0 or has the sign of the dividend.
  pub exec_div_s-exec_rem_s :
      0 < v2 % 2 ^ suc k
      → ((v1 % 2 ^ suc k == 2 ^ k) && (v2 % 2 ^ suc k == 2 ^ suc k - 1)) ≡ false
      → (q r : ℕ) × (exec_div_s (suc k) (record m { stack = v2 ∷ v1 ∷ rest })
          ≡ ok (record m { stack = q ∷ rest }))
        × (exec_rem_s (suc k) (record m { stack = v2 ∷ v1 ∷ rest })
            ≡ ok (record m { stack = r ∷ rest }))
        × (mag (suc k) (v2 % 2 ^ suc k) * mag (suc k) q + mag (suc k) r
            ≡ mag (suc k) (v1 % 2 ^ suc k))
        × (mag (suc k) r < mag (suc k) (v2 % 2 ^ suc k))
        × ((mag (suc k) q ≡ 0)
            ⊎ (is_neg (suc k) q
                ≡ differ (is_neg (suc k) (v1 % 2 ^ suc k)) (is_neg (suc k) (v2 % 2 ^ suc k))))
        × ((mag (suc k) r ≡ 0) ⊎ (is_neg (suc k) r ≡ is_neg (suc k) (v1 % 2 ^ suc k)))
  unfolding exec_div_s exec_rem_s pop s_div s_rem
  exec_div_s-exec_rem_s pos fits =
      let a = v1 % 2 ^ suc k in
      let b = v2 % 2 ^ suc k in
      let a_word : a < 2 ^ suc k = mod-lt v1 (pow_pos (suc k)) in
      let b_word : b < 2 ^ suc k = mod-lt v2 (pow_pos (suc k)) in
      let neg = differ (is_neg (suc k) a) (is_neg (suc k) b) in
      let hq = quotient-holds k a b a_word b_word pos fits in
      let hr = remainder-holds k a b a_word b_word pos fits in
      let some : (b == 0) ≡ false = ground arith in
      let t = top k in
      let fits' : ((a == 2 ^ (suc k - 1)) && (b == 2 ^ suc k - 1)) ≡ false = rw t fits in
      let read_q = mag-of_mag k neg (mag (suc k) a / mag (suc k) b) hq in
      let read_r = mag-of_mag k (is_neg (suc k) a) (mag (suc k) a % mag (suc k) b) hr in
      (
        of_mag (suc k) neg (mag (suc k) a / mag (suc k) b),
        of_mag (suc k) (is_neg (suc k) a) (mag (suc k) a % mag (suc k) b),
        rw (fits', some, hq) refl,
        rw (fits', some, hq) refl,
        rw (read_q, read_r) (div-add-mod (mag (suc k) a) (mag (suc k) b)),
        rw read_r (mod-lt (mag (suc k) a) (mag_pos k a b a_word b_word pos fits)),
        is_zero-or_signed k neg (mag (suc k) a / mag (suc k) b) hq,
        is_zero-or_signed k (is_neg (suc k) a) (mag (suc k) a % mag (suc k) b) hr,
      )
