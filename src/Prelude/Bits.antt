-- ===== src/Prelude/Bits.antt =====
-- Masks of a byte by evaluation over all bytes, and `|` of disjoint fields as a sum.
use Prim.Native.Nat.{
  ℕ, zero, suc, ◌+◌, ◌-◌, ◌*◌, ◌/◌, ◌%◌, ◌^◌, ◌≤◌, ◌<◌, max, bit_or, digits, bit_or-bitwise,
}
use mathlib.Core.Path.{◌≡◌, refl, ap, ◌∙◌}
use mathlib.Core.Bool.{true}
use native.Mathlib.Omega.{arith}
use native.Mathlib.Nat.{pow-suc}
use silverfir.Prelude.Tests.{◌==◌, ==_iff, passes_below, passes_below-at}

-- `|` reads the digits of its left operand on fuel; one unit more than enough changes nothing.
abbrev digits_of_or : ℕ → ℕ → ℕ → ℕ
digits_of_or = digits (λ rest. rest) max

digits_of_or-suc : (fuel x y : ℕ) → x ≤ fuel → digits_of_or (suc fuel) x y ≡ digits_of_or fuel x y
digits_of_or-suc fuel zero y enough = spent fuel
  where
    spent : (k : ℕ) → digits_of_or (suc k) zero y ≡ digits_of_or k zero y
    spent zero = refl
    spent (suc k) = refl
digits_of_or-suc zero (suc x) y enough = absurd (omega arith)
digits_of_or-suc (suc fuel) (suc x) y enough =
    ap (λ (rest : ℕ). rest * 2 + max (suc x % 2) (y % 2))
      (digits_of_or-suc fuel (suc x / 2) (y / 2) (omega arith))

-- So any fuel from the left operand up gives what the operand itself gives.
digits_of_or-enough :
    (spare x y : ℕ) (fuel : ℕ) → fuel ≡ x + spare → digits_of_or fuel x y ≡ digits_of_or x x y
digits_of_or-enough zero x y fuel e = let same : fuel ≡ x = omega arith in rw same
digits_of_or-enough (suc spare) x y fuel e =
    let same : fuel ≡ suc (x + spare) = omega arith in
    rw same (
      digits_of_or-suc (x + spare) x y (omega arith)
      ∙ digits_of_or-enough spare x y (x + spare) refl)

or_of_zero : (y : ℕ) → bit_or 0 y ≡ y
or_of_zero y = bit_or-bitwise 0 y

-- The lowest digit of `x | y`, and the rest.
pub bit_or_halves : (x y : ℕ) → bit_or x y ≡ bit_or (x / 2) (y / 2) * 2 + max (x % 2) (y % 2)
bit_or_halves zero y = omega (arith, or_of_zero y, or_of_zero (y / 2))
bit_or_halves (suc x) y =
    let rest = digits_of_or-enough (x - suc x / 2) (suc x / 2) (y / 2) x (omega arith) in
    omega (arith, rest, bit_or-bitwise (suc x) y, bit_or-bitwise (suc x / 2) (y / 2))

double_field : (q k : ℕ) → q * 2 ^ suc k ≡ 2 * (q * 2 ^ k)
double_field q k = omega (arith, ap (λ (t : ℕ). q * t) (pow-suc 2 k))

-- `r | (q << k)` is a sum where `r` fits k bits.
pub bit_or_sum : (k r q : ℕ) → r < 2 ^ k → bit_or r (q * 2 ^ k) ≡ r + q * 2 ^ k
bit_or_sum zero r q h = ground (arith, or_of_zero (q * 2 ^ 0))
bit_or_sum (suc k) r q h =
    ground (
      arith,
      bit_or_halves r (q * 2 ^ suc k),
      double_field q k,
      pow-suc 2 k,
      bit_or_sum k (r / 2) q,
    )

-- `|` of two words is a word.
pub bit_or_lt : (k a b : ℕ) → a < 2 ^ k → b < 2 ^ k → bit_or a b < 2 ^ k
bit_or_lt zero a b h k =
    let ea : a ≡ 0 = omega arith in
    let eb : b ≡ 0 = omega arith in rw (ea, eb) (omega (arith, or_of_zero 0))
bit_or_lt (suc n) a b h k =
    ground (arith, pow-suc 2 n, bit_or_halves a b, bit_or_lt n (a / 2) (b / 2))

-- A fact that a table shows of every byte.
pub byte_table :
    (f g : ℕ → ℕ) (x : ℕ) → passes_below (λ b. f b == g b) 256 ≡ true → x < 256 → f x ≡ g x
byte_table f g x table h = (==_iff (f x) (g x)).0 (passes_below-at (λ b. f b == g b) 256 x h table)
