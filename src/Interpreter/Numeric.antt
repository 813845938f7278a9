-- ===== src/Interpreter/Numeric.antt =====
-- The integer instructions of src/interpreter/in_place_dt.c and the operators of src/utils/smath.h.
-- A signed operand is its bit pattern; a result is `fault` where C leaves the operator undefined:
-- a signed sum, difference or product out of range, a shift by the width or more, or a shift of a
-- sign bit.
pub mod Handlers
pub mod Signs
pub mod Division
use silverfir.Prelude.{
  ℕ, zero, suc, ◌+◌, ◌-◌, ◌*◌, ◌/◌, ◌%◌, ◌^◌, Bool, true, false, ltb, leb, ◌&&◌, ◌||◌, not, ◌==◌,
  ◌!=◌, if◌then◌else◌, bit_and, bit_or, sub_wrap, shl_wrap,
}
use Prim.Native.Nat.{bit_xor}
use silverfir.Result.{Result, ok, fault}

abbrev pub is_neg : ℕ → ℕ → Bool
is_neg w a = leb (2 ^ (w - 1)) a

-- The distance of a signed number from the least one, which orders signed numbers.
abbrev pub bias : ℕ → ℕ → ℕ
bias w a = (a + 2 ^ (w - 1)) % 2 ^ w

abbrev pub mag : ℕ → ℕ → ℕ
mag w a = if is_neg w a then 2 ^ w - a else a

abbrev pub of_mag : ℕ → Bool → ℕ → ℕ
of_mag w neg x = if neg then (2 ^ w - x) % 2 ^ w else x

abbrev pub differ : Bool → Bool → Bool
differ a b = if a then not b else b

-- A magnitude with a sign that the width can hold.
abbrev pub holds : ℕ → Bool → ℕ → Bool
holds w neg x = if neg then leb x (2 ^ (w - 1)) else ltb x (2 ^ (w - 1))

unfoldable pub s_add : ℕ → ℕ → ℕ → Result ℕ
s_add w a b =
    if leb (2 ^ (w - 1)) (bias w a + bias w b) && ltb (bias w a + bias w b) (2 ^ w + 2 ^ (w - 1))
    then ok ((a + b) % 2 ^ w)
    else fault

unfoldable pub s_sub : ℕ → ℕ → ℕ → Result ℕ
s_sub w a b =
    if ltb (bias w a) (bias w b + 2 ^ (w - 1)) && leb (bias w b) (bias w a + 2 ^ (w - 1))
    then ok (sub_wrap w a b)
    else fault

unfoldable pub s_mul : ℕ → ℕ → ℕ → Result ℕ
s_mul w a b =
    if holds w (differ (is_neg w a) (is_neg w b)) (mag w a * mag w b)
    then ok (a * b % 2 ^ w)
    else fault

-- `/` and `%` of signed numbers round towards 0; where the quotient does not fit both are undefined.
unfoldable pub s_div : ℕ → ℕ → ℕ → Result ℕ
s_div w a b =
    let neg = differ (is_neg w a) (is_neg w b) in
    if b == 0
    then fault
    else if holds w neg (mag w a / mag w b)
    then ok (of_mag w neg (mag w a / mag w b))
    else fault

unfoldable pub s_rem : ℕ → ℕ → ℕ → Result ℕ
s_rem w a b =
    if b == 0
    then fault
    else if holds w (differ (is_neg w a) (is_neg w b)) (mag w a / mag w b)
    then ok (of_mag w (is_neg w a) (mag w a % mag w b))
    else fault

unfoldable pub s_div_unsigned : ℕ → ℕ → Result ℕ
s_div_unsigned a b = if b == 0 then fault else ok (a / b)

unfoldable pub s_rem_unsigned : ℕ → ℕ → Result ℕ
s_rem_unsigned a b = if b == 0 then fault else ok (a % b)

unfoldable pub s_and : ℕ → ℕ → Result ℕ
s_and a b = ok (bit_and a b)

unfoldable pub s_or : ℕ → ℕ → Result ℕ
s_or a b = ok (bit_or a b)

unfoldable pub s_xor : ℕ → ℕ → Result ℕ
s_xor a b = ok (bit_xor a b)

unfoldable pub s_shl : ℕ → ℕ → ℕ → Result ℕ
s_shl w a b =
    if leb w b then fault else if ltb (a * 2 ^ b) (2 ^ (w - 1)) then ok (a * 2 ^ b) else fault

-- `>>` copies the sign of a signed left operand.
unfoldable pub s_shr : ℕ → ℕ → ℕ → Result ℕ
s_shr w a b =
    if leb w b
    then fault
    else if is_neg w a
    then ok (2 ^ w - 1 - (2 ^ w - 1 - a) / 2 ^ b)
    else ok (a / 2 ^ b)

unfoldable pub s_shr_unsigned : ℕ → ℕ → ℕ → Result ℕ
s_shr_unsigned w a b = if leb w b then fault else ok (a / 2 ^ b)

unfoldable pub s_rotl : ℕ → ℕ → ℕ → Result ℕ
s_rotl w v n = ok (bit_or (shl_wrap w v (n % w)) (v / 2 ^ (sub_wrap w w n % w)))

unfoldable pub s_rotr : ℕ → ℕ → ℕ → Result ℕ
s_rotr w v n = ok (bit_or (v / 2 ^ (n % w)) (shl_wrap w v (sub_wrap w w n % w)))

abbrev pub flag : Bool → ℕ
flag true = 1
flag false = 0

-- The relations, on unsigned and on signed numbers.
unfoldable pub s_eqz : ℕ → ℕ
s_eqz a = flag (a == 0)

unfoldable pub s_eq : ℕ → ℕ → Result ℕ
s_eq a b = ok (flag (a == b))

unfoldable pub s_ne : ℕ → ℕ → Result ℕ
s_ne a b = ok (flag (a != b))

unfoldable pub s_lt : (ℕ → ℕ) → ℕ → ℕ → Result ℕ
s_lt value a b = ok (flag (ltb (value a) (value b)))

unfoldable pub s_gt : (ℕ → ℕ) → ℕ → ℕ → Result ℕ
s_gt value a b = ok (flag (ltb (value b) (value a)))

unfoldable pub s_le : (ℕ → ℕ) → ℕ → ℕ → Result ℕ
s_le value a b = ok (flag (leb (value a) (value b)))

unfoldable pub s_ge : (ℕ → ℕ) → ℕ → ℕ → Result ℕ
s_ge value a b = ok (flag (leb (value b) (value a)))

-- The counts of src/platform/gcc_clang/gcc_clang.h, on the bits from the highest or the lowest.
unfoldable pub s_clz : ℕ → ℕ → ℕ
s_clz zero x = 0
s_clz (suc k) x = let rest = s_clz k x in if leb (2 ^ k) x then 0 else suc rest

unfoldable pub s_ctz : ℕ → ℕ → ℕ
s_ctz zero x = 0
s_ctz (suc k) x = let rest = s_ctz k (x / 2) in if x % 2 == 1 then 0 else suc rest

unfoldable pub s_popcnt : ℕ → ℕ → ℕ
s_popcnt zero x = 0
s_popcnt (suc k) x = x % 2 + s_popcnt k (x / 2)
