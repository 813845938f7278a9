-- ===== src/Interpreter/Numeric/Signs.antt =====
-- The signed readings that the operators of src/utils/smath.h use in src/interpreter/in_place_dt.c.
use native.Mathlib.Nat.{pow-succ', mod-eq_of_lt, mod_self}
use silverfir.Prelude.{
  ℕ, zero, suc, ◌-◌, ◌*◌, ◌%◌, ◌^◌, ◌<◌, ◌≡◌, Bool, true, false, leb, arith, pow_pos, Bool-cases,
  inl, inr,
}
use silverfir.Interpreter.Numeric.{is_neg, mag, of_mag, holds}

module _ (k : ℕ) where
  pub double : 2 ^ suc k ≡ 2 * 2 ^ k
  double = pow-succ' 2 k

  pub top : suc k - 1 ≡ k
  top = omega arith

  -- A negative number is its distance to the next power.
  wrapped : (x : ℕ) → (2 * 2 ^ k - suc x) % (2 * 2 ^ k) ≡ 2 * 2 ^ k - suc x
  wrapped x = let p = pow_pos k in mod-eq_of_lt (omega arith)

  -- A magnitude that the width holds is read back.
  pub mag-of_mag :
      (neg : Bool) (x : ℕ) → holds (suc k) neg x ≡ true → mag (suc k) (of_mag (suc k) neg x) ≡ x
  mag-of_mag true zero h =
      let whole : 2 * 2 ^ k - 0 ≡ 2 * 2 ^ k = omega arith in
      let p = pow_pos k in rw (double, top, whole, mod_self (2 * 2 ^ k)) (ground arith)
  mag-of_mag true (suc x) h =
      let p = rw top at h in let q = pow_pos k in rw (double, top, wrapped x) (ground arith)
  mag-of_mag false x h = let p = rw top at h in rw top (ground arith)

  -- So is its sign, unless the magnitude is 0.
  pub is_neg-of_mag :
      (neg : Bool) (x : ℕ)
      → holds (suc k) neg x ≡ true
      → 0 < x
      → is_neg (suc k) (of_mag (suc k) neg x) ≡ neg
  is_neg-of_mag neg zero h pos = absurd (omega arith)
  is_neg-of_mag true (suc x) h pos =
      let p = rw top at h in let q = pow_pos k in rw (double, top, wrapped x) (ground arith)
  is_neg-of_mag false (suc x) h pos = let p = rw top at h in rw top (ground arith)

  -- A number of the width has a magnitude that the width holds with its sign.
  pub mag-holds : (a : ℕ) → a < 2 ^ suc k → holds (suc k) (is_neg (suc k) a) (mag (suc k) a) ≡ true
  mag-holds a h =
      let d = double in
      let t = top in
      rw t (elim (Bool-cases (leb (2 ^ k) a)) [
        | inl e ↦ rw e (ground arith)
        | inr e ↦ rw e (ground arith)
      ])
