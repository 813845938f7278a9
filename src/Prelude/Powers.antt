-- ===== src/Prelude/Powers.antt =====
-- Powers of two, which bound the fields of a word.
use Prim.Native.Nat.{ℕ, zero, suc, ◌+◌, ◌*◌, ◌^◌, ◌≤◌}
use mathlib.Core.Path.{◌≡◌, ap}
use native.Mathlib.Omega.{arith}
use native.Mathlib.Nat.{pow-suc, one-le-pow}

pub pow-add : (a b : ℕ) → 2 ^ (a + b) ≡ 2 ^ a * 2 ^ b
pow-add zero b = let e : zero + b ≡ b = omega arith in rw e (omega arith)
pow-add (suc a) b =
    let e : suc a + b ≡ suc (a + b) = omega arith in
    rw e (omega (arith, pow-suc 2 (a + b), ap (λ (t : ℕ). t * 2 ^ b) (pow-suc 2 a), pow-add a b))

pub pow_pos : (a : ℕ) → 1 ≤ 2 ^ a
pow_pos a = one-le-pow a 2 (omega arith)
