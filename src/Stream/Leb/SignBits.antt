-- ===== src/Stream/Leb/SignBits.antt =====
-- The last byte of a signed number and its sign, for the signed decoders of src/utils/stream.h.
use silverfir.Prelude.{
  ℕ, zero, suc, ◌+◌, ◌-◌, ◌*◌, ◌/◌, ◌%◌, ◌^◌, ◌≤◌, ◌<◌, ◌≡◌, ◌⊎◌, ◌∙◌, refl, ap, arith, List, ◌∷◌,
  Bool, true, false, not, Option, none, some, ltb, leb, ◌!=◌, if◌then◌else◌, inl, inr, Bool-cases,
  IsByte, bit_and, passes_below, passes_below-at, pow-add, pow_pos, shl_wrap,
}
use native.Mathlib.Nat.{mod-eq_of_lt}
use silverfir.Prelude.Bits.{bit_or_sum, byte_table}
use silverfir.Stream.Leb.{bad_sign_bits, extend_sign, add_group}
use silverfir.Stream.Leb.Unsigned.{add_group_lem, mul-lt, mul-le}
use silverfir.Stream.Grammar.{signed, prepend}

-- The last byte of a signed number of n bits, and what it stands for.
abbrev pub accepts : ℕ → ℕ → Bool
accepts n b = if ltb b 64 then ltb b (2 ^ (n - 1)) else leb 128 (b + 2 ^ (n - 1))

abbrev pub pattern_of : ℕ → ℕ → ℕ
pattern_of n b = if ltb b 64 then b else b + 2 ^ n - 128

abbrev pub last_of : ℕ → ℕ → Option (ℕ × ℕ)
last_of n b = if accepts n b then some (pattern_of n b, 1) else none

pub signed_last : (n b : ℕ) (bs : List ℕ) → b < 128 → signed n (b ∷ bs) ≡ last_of n b
unfolding signed
signed_last n b bs h = ground arith

pub signed_more :
    (n b : ℕ) (bs : List ℕ) → 128 ≤ b → 7 < n → signed n (b ∷ bs) ≡ prepend b (signed (n - 7) bs)
unfolding signed
signed_more n b bs h k = ground arith

pub signed_too_long : (n b : ℕ) (bs : List ℕ) → 128 ≤ b → n ≤ 7 → signed n (b ∷ bs) ≡ none
unfolding signed
signed_too_long n b bs h k = ground arith

pub sign_bit : (b : ℕ) → IsByte b → b < 128 → (bit_and b 0x40 != 0) ≡ leb 64 b
unfolding passes_below
sign_bit b h k = ground (arith, byte_table (λ x. bit_and x 0x40) (λ x. x / 64 % 2 * 64) b refl h)

pow_split : (s n : ℕ) → s ≤ n → 2 ^ n ≡ 2 ^ (n - s) * 2 ^ s
pow_split s n h =
    let e : n ≡ (n - s) + s = omega arith in ap (λ (k : ℕ). 2 ^ k) e ∙ pow-add (n - s) s

pow_mono : (s n : ℕ) → s ≤ n → 2 ^ s ≤ 2 ^ n
pow_mono s n h = omega (arith, pow_split s n h, mul-le 1 (2 ^ (n - s)) (2 ^ s) (pow_pos (n - s)))

pred-mul : (q p : ℕ) → (q - 1) * p ≡ q * p - p
pred-mul zero p = omega arith
pred-mul (suc q) p = grind arith

-- The ones above a position of a 64-bit word.
ones_above : (s : ℕ) → s ≤ 64 → shl_wrap 64 (2 ^ 64 - 1) s ≡ (2 ^ (64 - s) - 1) * 2 ^ s
ones_above s h =
    omega (arith, pow_split s 64 h, pred-mul (2 ^ (64 - s)) (2 ^ s), pow_pos s, pow_mono s 64 h)

pub extend_sign_lem :
    (w result s : ℕ)
    → (w ≡ 32) ⊎ (w ≡ 64)
    → s ≤ w
    → result < 2 ^ s
    → extend_sign w result s ≡ result + 2 ^ w - 2 ^ s
extend_sign_lem w result s width hs hr =
    let low : s ≤ 64 = grind arith in
    let filled = bit_or_sum s result (2 ^ (64 - s) - 1) hr in
    rw (ones_above s low, filled)
      (elim width [
        | inl e ↦ rw e (
            omega (
              arith,
              pow_split s 64 low,
              pred-mul (2 ^ (64 - s)) (2 ^ s),
              pow_pos s,
              hr,
              pow_mono s 32 (rw e at hs),
            ))
        | inr e ↦ rw e (
            omega (
              arith,
              pow_split s 64 low,
              pred-mul (2 ^ (64 - s)) (2 ^ s),
              pow_pos s,
              hr,
              pow_mono s 64 (rw e at hs),
            ))
      ])

-- A whole group, as the signed loop adds it.
pub group_lem :
    (w result b shift : ℕ)
    → w ≤ 64
    → IsByte b
    → result < 2 ^ shift
    → 128 * 2 ^ shift ≤ 2 ^ w
    → (add_group 64 result b shift % 2 ^ w ≡ result + b % 128 * 2 ^ shift)
      × (result + b % 128 * 2 ^ shift < 2 ^ w)
group_lem w result b shift hw hb hr fits =
    let small = mul-lt (b % 128) 128 (2 ^ shift) (omega arith) (pow_pos shift) in
    let tight = mul-le (b % 128) 127 (2 ^ shift) (omega arith) in
    let whole : result + b % 128 * 2 ^ shift < 2 ^ w = omega (arith, tight, hr, fits) in
    (
      rw (add_group_lem 64 result b shift hb hr (omega (arith, small, fits, pow_mono w 64 hw)))
          (mod-eq_of_lt whole),
      whole,
    )

pub last_of-low : (n b : ℕ) → b < 64 → 128 ≤ 2 ^ (n - 1) → last_of n b ≡ some (b, 1)
last_of-low n b h k = ground arith

pub last_of-high : (n b : ℕ) → 64 ≤ b → 128 ≤ 2 ^ (n - 1) → last_of n b ≡ some (b + 2 ^ n - 128, 1)
last_of-high n b h k = ground arith

pub last_of-good : (n b : ℕ) → accepts n b ≡ true → last_of n b ≡ some (pattern_of n b, 1)
last_of-good n b h = rw h refl

pub last_of-wrong : (n b : ℕ) → accepts n b ≡ false → last_of n b ≡ none
last_of-wrong n b h = rw h refl

-- A negative number's last group, with the ones above it.
mul-negative : (b m p : ℕ) → 128 ≤ m → (b + (m - 128)) * p ≡ b * p + (m * p - 128 * p)
mul-negative b m p h =
    let e : m ≡ (m - 128) + 128 = omega arith in
    let d : m * p ≡ (m - 128) * p + 128 * p = ap (λ (t : ℕ). t * p) e ∙ (grind arith) in
    omega (arith, d)

pub negative_lem :
    (w n result b shift : ℕ)
    → w ≡ n + shift
    → 128 ≤ 2 ^ n
    → result + b * 2 ^ shift + 2 ^ w - 2 ^ (shift + 7) ≡ result + (b + 2 ^ n - 128) * 2 ^ shift
negative_lem w n result b shift hw wide =
    let split : 2 ^ w ≡ 2 ^ n * 2 ^ shift = rw hw (pow-add n shift) in
    let e : b + 2 ^ n - 128 ≡ b + (2 ^ n - 128) = omega arith in
    rw e (
      omega (
        arith,
        split,
        pow-add shift 7,
        mul-le 128 (2 ^ n) (2 ^ shift) wide,
        mul-negative b (2 ^ n) (2 ^ shift) wide,
      ))

matches : (x y : Bool) → (if y then not x else x) ≡ true → x ≡ not y
matches true true h = cc
matches false true h = refl
matches x false h = h

abbrev agrees : ℕ → ℕ → ℕ → Bool
agrees w n b =
    if ltb b 128 then (if accepts n b then not (bad_sign_bits w b) else bad_sign_bits w b) else true

agrees_at :
    (w n b : ℕ)
    → passes_below (agrees w n) 256 ≡ true
    → IsByte b
    → b < 128
    → bad_sign_bits w b ≡ not (accepts n b)
agrees_at w n b table h k =
    ground
      (arith, matches (bad_sign_bits w b) (accepts n b), passes_below-at (agrees w n) 256 b h table)

pub bad_32 : (b : ℕ) → IsByte b → b < 128 → bad_sign_bits 32 b ≡ not (accepts 4 b)
unfolding passes_below
bad_32 b h k = agrees_at 32 4 b refl h k

pub top_32 :
    (b result : ℕ)
    → b < 128
    → result < 2 ^ 28
    → accepts 4 b ≡ true
    → add_group 64 result b 28 % 2 ^ 32 ≡ result + pattern_of 4 b * 2 ^ 28
top_32 b result h k good =
    let split : b % 128 ≡ b = omega arith in
    let sum : add_group 64 result b 28 ≡ result + b * 2 ^ 28 =
      rw split at (add_group_lem 64 result b 28 (omega arith) k (omega arith)) in
    rw sum (ground arith)

pub bad_64 : (b : ℕ) → IsByte b → b < 128 → bad_sign_bits 64 b ≡ not (accepts 1 b)
unfolding passes_below
bad_64 b h k = agrees_at 64 1 b refl h k

pub top_64 :
    (b result : ℕ)
    → b < 128
    → result < 2 ^ 63
    → accepts 1 b ≡ true
    → add_group 64 result b 63 % 2 ^ 64 ≡ result + pattern_of 1 b * 2 ^ 63
top_64 b result h k good = elim (Bool-cases (ltb b 64)) [
  | inl low ↦ let e : b ≡ 0 = ground arith in rw e (rw (bit_or_sum 63 result 0 k) (omega arith))
  | inr high ↦ let e : b ≡ 127 = ground arith in rw e (rw (bit_or_sum 63 result 1 k) (omega arith))
]
