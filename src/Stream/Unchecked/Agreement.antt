-- ===== src/Stream/Unchecked/Agreement.antt =====
-- The unchecked decoder of src/utils/stream.h reads what the checked one accepts.
use silverfir.Prelude.{
  ℕ, suc, ◌+◌, ◌-◌, ◌*◌, ◌^◌, ◌≤◌, ◌<◌, ◌≡◌, ◌∙◌, refl, inl, inr, arith, List, ◌∷◌, none, some,
  Option, ltb, true, false, Bool-cases, IsByte, All, drop, drop-get_or, drop_past, All-get_or,
  length, if◌then◌else◌,
}
use native.Mathlib.Decide.{dec_lt}
use silverfir.Stream.Leb.Unsigned.{top_bit}
use silverfir.Stream.Grammar.{unsigned, prepend}
use silverfir.Stream.Unchecked.{at, is_last, plus_group, minus_top, read_vu32_unchecked}

is_last-ltb : (b : ℕ) → IsByte b → is_last b ≡ ltb b 128
is_last-ltb b h = ground (arith, top_bit b h)

-- The two ways in which the grammar reads a number of n bits.
data IsRead (n : ℕ) (b : ℕ) (bs : List ℕ) (v k : ℕ) : Type 0 where
  last : is_last b ≡ true → b < 2 ^ n → v ≡ b → k ≡ 1 → IsRead n b bs v k
  more :
      {m j : ℕ}
      → is_last b ≡ false
      → 128 ≤ b
      → 7 < n
      → unsigned (n - 7) bs ≡ some (m, j)
      → v ≡ 128 * m + (b - 128)
      → k ≡ suc j
      → IsRead n b bs v k

unprepend :
    (b v k : ℕ) (o : Option (ℕ × ℕ))
    → prepend b o ≡ some (v, k)
    → (m : ℕ) × (j : ℕ) × (o ≡ some (m, j)) × (v ≡ 128 * m + (b - 128)) × (k ≡ suc j)
unprepend b v k none e = cc
unprepend b v k (some (m, j)) e = (m, j, refl, cc, cc)

unsigned_cases :
    (n b : ℕ) (bs : List ℕ) (v k : ℕ)
    → IsByte b
    → unsigned n (b ∷ bs) ≡ some (v, k)
    → IsRead n b bs v k
unfolding unsigned
unsigned_cases n b bs v k h e = elim (Bool-cases (ltb b 128)) [
  | inl small ↦ last (ground (arith, is_last-ltb b h)) (ground arith) (ground arith) (ground arith)
  | inr large ↦
      let (m, j, e1, ev, ek) = unprepend b v k (unsigned (n - 7) bs) (ground arith) in
      more (ground (arith, is_last-ltb b h)) (ground arith) (ground arith) e1 ev ek
]

-- The same in a list, at an offset.
cases_at :
    (n p : ℕ) (s : List ℕ) (v k : ℕ)
    → All IsByte s
    → unsigned n (drop p s) ≡ some (v, k)
    → IsRead n (at s p) (drop (suc p) s) v k
unfolding unsigned
cases_at n p s v k bytes e = elim (dec_lt p (length s)) [
  | yes h ↦
      unsigned_cases n (at s p) (drop (suc p) s) v k (All-get_or IsByte s p 0 bytes (omega arith))
        (rw (drop-get_or p s 0 h) at e)
  | no h ↦ let e1 = rw (drop_past p s (omega (arith, h)), unsigned) at e in cc
]

-- `read_vu32_unchecked` as a function of the next five bytes.
abbrev groups : ℕ → ℕ → ℕ → ℕ → ℕ → ℕ → ℕ × ℕ
groups b0 b1 b2 b3 b4 p =
    let r0 = plus_group 32 0 b0 0 in
    let r1 = plus_group 32 (minus_top 32 r0 0) b1 7 in
    let r2 = plus_group 32 (minus_top 32 r1 7) b2 14 in
    let r3 = plus_group 32 (minus_top 32 r2 14) b3 21 in
    let r4 = plus_group 32 (minus_top 32 r3 21) b4 28 in
    if is_last b0
    then (r0, p + 1)
    else if is_last b1
    then (r1, p + 2)
    else if is_last b2
    then (r2, p + 3)
    else if is_last b3
    then (r3, p + 4)
    else (r4, p + 5)

unchecked-groups :
    (s : List ℕ) (p : ℕ)
    → read_vu32_unchecked s p
      ≡ groups
          (at s p)
          (at s (suc p))
          (at s (suc (suc p)))
          (at s (suc (suc (suc p))))
          (at s (suc (suc (suc (suc p)))))
          p
unfolding read_vu32_unchecked
unchecked-groups s p =
    let e1 : p + 1 ≡ suc p = omega arith in
    let e2 : p + 2 ≡ suc (suc p) = omega arith in
    let e3 : p + 3 ≡ suc (suc (suc p)) = omega arith in
    let e4 : p + 4 ≡ suc (suc (suc (suc p))) = omega arith in rw (e4, e3, e2, e1) refl

module _ (b0 b1 b2 b3 b4 p : ℕ) where
  groups_1 : is_last b0 ≡ true → b0 < 256 → groups b0 b1 b2 b3 b4 p ≡ (b0, p + 1)
  groups_1 l0 h0 = rw l0 (ground arith)

  groups_2 :
      is_last b0 ≡ false
      → is_last b1 ≡ true
      → 128 ≤ b0
      → b0 < 256
      → b1 < 256
      → groups b0 b1 b2 b3 b4 p ≡ (128 * b1 + (b0 - 128), p + 2)
  groups_2 l0 l1 k0 h0 h1 = rw (l0, l1) (ground arith)

  groups_3 :
      is_last b0 ≡ false
      → is_last b1 ≡ false
      → is_last b2 ≡ true
      → 128 ≤ b0
      → 128 ≤ b1
      → b0 < 256
      → b1 < 256
      → b2 < 256
      → groups b0 b1 b2 b3 b4 p ≡ (128 * (128 * b2 + (b1 - 128)) + (b0 - 128), p + 3)
  groups_3 l0 l1 l2 k0 k1 h0 h1 h2 = rw (l0, l1, l2) (ground arith)

  groups_4 :
      is_last b0 ≡ false
      → is_last b1 ≡ false
      → is_last b2 ≡ false
      → is_last b3 ≡ true
      → 128 ≤ b0
      → 128 ≤ b1
      → 128 ≤ b2
      → b0 < 256
      → b1 < 256
      → b2 < 256
      → b3 < 256
      → groups b0 b1 b2 b3 b4 p
        ≡ (128 * (128 * (128 * b3 + (b2 - 128)) + (b1 - 128)) + (b0 - 128), p + 4)
  groups_4 l0 l1 l2 l3 k0 k1 k2 h0 h1 h2 h3 = rw (l0, l1, l2, l3) (ground arith)

  groups_5 :
      is_last b0 ≡ false
      → is_last b1 ≡ false
      → is_last b2 ≡ false
      → is_last b3 ≡ false
      → 128 ≤ b0
      → 128 ≤ b1
      → 128 ≤ b2
      → 128 ≤ b3
      → b0 < 256
      → b1 < 256
      → b2 < 256
      → b3 < 256
      → b4 < 16
      → groups b0 b1 b2 b3 b4 p ≡ (
        128 * (128 * (128 * (128 * b4 + (b3 - 128)) + (b2 - 128)) + (b1 - 128)) + (b0 - 128),
        p + 5,
      )
  groups_5 l0 l1 l2 l3 k0 k1 k2 k3 h0 h1 h2 h3 h4 = rw (l0, l1, l2, l3) (ground arith)

-- A byte that another one follows.
record Long (b : ℕ) : Type 0 where
  flag : is_last b ≡ false
  large : 128 ≤ b

shift_index : {x : ℕ × ℕ} {v : ℕ} (p i j : ℕ) → x ≡ (v, p + (suc i + j)) → x ≡ (v, p + (i + suc j))
shift_index p i j e = let q : i + suc j ≡ suc i + j = omega arith in rw q e

-- A longer number, by the groups that are still to come.
module _ (s : List ℕ) (p : ℕ) (bytes : All IsByte s) where
  abbrev p0 : ℕ
  p0 = p

  abbrev b0 : ℕ
  b0 = at s p0

  abbrev p1 : ℕ
  p1 = suc p0

  abbrev b1 : ℕ
  b1 = at s p1

  abbrev p2 : ℕ
  p2 = suc p1

  abbrev b2 : ℕ
  b2 = at s p2

  abbrev p3 : ℕ
  p3 = suc p2

  abbrev b3 : ℕ
  b3 = at s p3

  abbrev p4 : ℕ
  p4 = suc p3

  abbrev b4 : ℕ
  b4 = at s p4

  here : (i : ℕ) → at s i < 256
  here i = All-get_or IsByte s i 0 bytes (omega arith)

  fifth :
      (m j : ℕ)
      → Long b0
      → Long b1
      → Long b2
      → Long b3
      → IsRead 4 b4 (drop (suc p4) s) m j
      → groups b0 b1 b2 b3 b4 p ≡ (
        128 * (128 * (128 * (128 * m + (b3 - 128)) + (b2 - 128)) + (b1 - 128)) + (b0 - 128),
        p + (4 + j),
      )
  fifth m j l0 l1 l2 l3 (last l lt ev ek) =
      rw (ev, ek)
        (groups_5 b0 b1 b2 b3 b4 p l0.flag l1.flag l2.flag l3.flag l0.large l1.large l2.large
          l3.large (here p0) (here p1) (here p2) (here p3) lt)
  fifth m j l0 l1 l2 l3 (more l k n e ev ek) = absurd (omega arith)

  fourth :
      (m j : ℕ)
      → Long b0
      → Long b1
      → Long b2
      → IsRead 11 b3 (drop (suc p3) s) m j
      → groups b0 b1 b2 b3 b4 p
        ≡ (128 * (128 * (128 * m + (b2 - 128)) + (b1 - 128)) + (b0 - 128), p + (3 + j))
  fourth m j l0 l1 l2 (last l lt ev ek) =
      rw (ev, ek)
        (groups_4 b0 b1 b2 b3 b4 p l0.flag l1.flag l2.flag l l0.large l1.large l2.large (here p0)
          (here p1) (here p2) (here p3))
  fourth m j l0 l1 l2 (more {m = m'} {j = j'} l k _ e ev ek) =
      rw (ev, ek)
        (shift_index p 3 j'
          (fifth m' j' l0 l1 l2 (record { flag = l; large = k }) (cases_at 4 p4 s m' j' bytes e)))

  third :
      (m j : ℕ)
      → Long b0
      → Long b1
      → IsRead 18 b2 (drop (suc p2) s) m j
      → groups b0 b1 b2 b3 b4 p ≡ (128 * (128 * m + (b1 - 128)) + (b0 - 128), p + (2 + j))
  third m j l0 l1 (last l lt ev ek) =
      rw (ev, ek)
        (groups_3 b0 b1 b2 b3 b4 p l0.flag l1.flag l l0.large l1.large (here p0) (here p1)
          (here p2))
  third m j l0 l1 (more {m = m'} {j = j'} l k _ e ev ek) =
      rw (ev, ek)
        (shift_index p 2 j'
          (fourth m' j' l0 l1 (record { flag = l; large = k }) (cases_at 11 p3 s m' j' bytes e)))

  second :
      (m j : ℕ)
      → Long b0
      → IsRead 25 b1 (drop (suc p1) s) m j
      → groups b0 b1 b2 b3 b4 p ≡ (128 * m + (b0 - 128), p + (1 + j))
  second m j l0 (last l lt ev ek) =
      rw (ev, ek) (groups_2 b0 b1 b2 b3 b4 p l0.flag l l0.large (here p0) (here p1))
  second m j l0 (more {m = m'} {j = j'} l k _ e ev ek) =
      rw (ev, ek)
        (shift_index p 1 j'
          (third m' j' l0 (record { flag = l; large = k }) (cases_at 18 p2 s m' j' bytes e)))

  first :
      (m j : ℕ) → IsRead 32 b0 (drop (suc p0) s) m j → groups b0 b1 b2 b3 b4 p ≡ (m, p + (0 + j))
  first m j (last l lt ev ek) = rw (ev, ek) (groups_1 b0 b1 b2 b3 b4 p l (here p0))
  first m j (more {m = m'} {j = j'} l k _ e ev ek) =
      rw (ev, ek)
        (shift_index p 0 j'
          (second m' j' (record { flag = l; large = k }) (cases_at 25 p1 s m' j' bytes e)))

-- On a number of the format the unchecked decoder returns the number and the pointer behind it.
pub read_vu32_unchecked-unsigned :
    (s : List ℕ) (p v k : ℕ)
    → All IsByte s
    → unsigned 32 (drop p s) ≡ some (v, k)
    → read_vu32_unchecked s p ≡ (v, p + k)
read_vu32_unchecked-unsigned s p v k bytes e =
    let q : 0 + k ≡ k = omega arith in
    unchecked-groups s p ∙ (rw q at (first s p bytes v k (cases_at 32 p s v k bytes e)))
