-- ===== src/Interpreter/Bytes.antt =====
-- The reads and writes of src/utils/mem_util.h, which src/interpreter/in_place_dt.c uses, and
-- little-endian numbers.
use native.Mathlib.Nat.{mod-lt, mod-add-div, mod-eq_of_lt, add-mul-mod_self_left}
use silverfir.Prelude.{
  ℕ, zero, suc, ◌+◌, ◌*◌, ◌/◌, ◌%◌, ◌^◌, ◌≤◌, ◌<◌, ◌≡◌, refl, sym, ap, ◌∙◌, false, leb, List, [],
  ◌∷◌, some, length, get_elem?, get_or, drop, modify, arith, length-modify, drop-get_or, ◌⊎◌, inl,
  inr, pow-add, pow_pos,
}
use silverfir.Result.{ok}
use silverfir.Interpreter.{read_at, write_at}
use silverfir.Interpreter.Memory.{mem_read, mem_write}

-- The number that the first `n` bytes of a list write, the lowest first.
unfoldable pub little_endian : ℕ → List ℕ → ℕ
little_endian zero bytes = 0
little_endian (suc n) [] = 0
little_endian (suc n) (b ∷ bytes) = b + 256 * little_endian n bytes

get_elem-get_or : (xs : List ℕ) (i d : ℕ) → i < length xs → get_elem? xs i ≡ some (get_or xs i d)
get_elem-get_or [] i d h = absurd (omega arith)
get_elem-get_or (x ∷ xs) zero d h = refl
get_elem-get_or (x ∷ xs) (suc i) d h = get_elem-get_or xs i d (omega arith)

pub read_at-inside : (xs : List ℕ) (i : ℕ) → i < length xs → read_at xs i ≡ ok (get_or xs i 0)
unfolding read_at
read_at-inside xs i h = rw (get_elem-get_or xs i 0 h, read_at) refl

pub read_at-found :
    {A : Type 0} (xs : List A) (i : ℕ) (x : A) → get_elem? xs i ≡ some x → read_at xs i ≡ ok x
unfolding read_at
read_at-found xs i x e = rw (e, read_at) refl

pub write_at-inside :
    {A : Type 0} (xs : List A) (i : ℕ) (x : A)
    → i < length xs
    → write_at xs i x ≡ ok (modify xs i (λ _. x))
unfolding write_at
write_at-inside xs i x h = let e : leb (length xs) i ≡ false = ground arith in rw e refl

pub mem_read-inside :
    (n : ℕ) (bytes : List ℕ) (p : ℕ)
    → p + n ≤ length bytes
    → mem_read n bytes p ≡ ok (little_endian n (drop p bytes))
unfolding mem_read little_endian
mem_read-inside zero bytes p h = refl
mem_read-inside (suc n) bytes p h =
    rw
      (
        read_at-inside bytes p (omega arith),
        mem_read-inside n bytes (suc p) (omega arith),
        drop-get_or p bytes 0 (omega arith),
      )
      refl

-- The bytes after the low `n` of a value are put at `p`.
unfoldable pub put : ℕ → List ℕ → ℕ → ℕ → List ℕ
put zero bytes p val = bytes
put (suc n) bytes p val = put n (modify bytes p (λ _. val % 256)) (suc p) (val / 256)

pub length-put : (n : ℕ) (bytes : List ℕ) (p val : ℕ) → length (put n bytes p val) ≡ length bytes
unfolding put
length-put zero bytes p val = refl
length-put (suc n) bytes p val =
    length-put n (modify bytes p (λ _. val % 256)) (suc p) (val / 256)
    ∙ length-modify bytes p (λ _. val % 256)

pub mem_write-inside :
    (n : ℕ) (bytes : List ℕ) (p val : ℕ)
    → p + n ≤ length bytes
    → mem_write n bytes p val ≡ ok (put n bytes p val)
unfolding mem_write put
mem_write-inside zero bytes p val h = refl
mem_write-inside (suc n) bytes p val h = rw (write_at-inside bytes p (val % 256) (omega arith)) (
    mem_write-inside n (modify bytes p (λ _. val % 256)) (suc p) (val / 256)
      (omega (arith, length-modify bytes p (λ _. val % 256))))

get_or-modify-other :
    (xs : List ℕ) (k i x d : ℕ)
    → (i < k) ⊎ (k < i)
    → get_or (modify xs k (λ _. x)) i d ≡ get_or xs i d
get_or-modify-other [] k i x d h = refl
get_or-modify-other (y ∷ xs) zero zero x d h =
    absurd (elim h [ inl a ↦ omega arith | inr a ↦ omega arith ])
get_or-modify-other (y ∷ xs) zero (suc i) x d h = refl
get_or-modify-other (y ∷ xs) (suc k) zero x d h = refl
get_or-modify-other (y ∷ xs) (suc k) (suc i) x d h =
    get_or-modify-other xs k i x d
      (elim h [ inl a ↦ inl (omega arith) | inr a ↦ inr (omega arith) ])

get_or-modify-same :
    (xs : List ℕ) (k x d : ℕ) → k < length xs → get_or (modify xs k (λ _. x)) k d ≡ x
get_or-modify-same [] k x d h = absurd (omega arith)
get_or-modify-same (y ∷ xs) zero x d h = refl
get_or-modify-same (y ∷ xs) (suc k) x d h = get_or-modify-same xs k x d (omega arith)

-- The other bytes stay.
pub get_or-put :
    (n : ℕ) (bytes : List ℕ) (p val i : ℕ)
    → (i < p) ⊎ (p + n ≤ i)
    → get_or (put n bytes p val) i 0 ≡ get_or bytes i 0
unfolding put
get_or-put zero bytes p val i h = refl
get_or-put (suc n) bytes p val i h =
    get_or-put n (modify bytes p (λ _. val % 256)) (suc p) (val / 256) i
      (elim h [ inl a ↦ inl (omega arith) | inr a ↦ inr (omega arith) ])
    ∙ get_or-modify-other bytes p i (val % 256) 0
        (elim h [ inl a ↦ inl a | inr a ↦ inr (omega arith) ])

little_endian-drop :
    (n : ℕ) (bytes : List ℕ) (p : ℕ)
    → p < length bytes
    → little_endian (suc n) (drop p bytes)
      ≡ get_or bytes p 0 + 256 * little_endian n (drop (suc p) bytes)
unfolding little_endian
little_endian-drop n bytes p h = rw (drop-get_or p bytes 0 h) refl

-- The lowest of the bytes of a number, and the others.
low_byte : (val q : ℕ) → 0 < q → val % 256 + 256 * (val / 256 % q) ≡ val % (256 * q)
low_byte val q h =
    let below = mod-lt (val / 256) h in
    let rest = mod-add-div (val / 256) q in
    let whole : val ≡ (val % 256 + 256 * (val / 256 % q)) + 256 * q * (val / 256 / q) =
      omega (arith, rest, below) in
    sym (
      ap (λ (t : ℕ). t % (256 * q)) whole
      ∙ add-mul-mod_self_left (val % 256 + 256 * (val / 256 % q)) (256 * q) (val / 256 / q)
      ∙ mod-eq_of_lt (omega (arith, below)))

-- What was put is read.
pub little_endian-put :
    (n : ℕ) (bytes : List ℕ) (p val : ℕ)
    → p + n ≤ length bytes
    → little_endian n (drop p (put n bytes p val)) ≡ val % 2 ^ (8 * n)
unfolding little_endian put
little_endian-put zero bytes p val h = omega arith
little_endian-put (suc n) bytes p val h =
    let eight : 8 * suc n ≡ 8 + 8 * n = omega arith in
    let bytes' = modify bytes p (λ _. val % 256) in
    let long = length-modify bytes p (λ _. val % 256) in
    let rest = little_endian-put n bytes' (suc p) (val / 256) (omega arith) in
    let first =
      little_endian-drop n (put n bytes' (suc p) (val / 256)) p
        (omega (arith, length-put n bytes' (suc p) (val / 256))) in
    let low =
      get_or-put n bytes' (suc p) (val / 256) p (inl (omega arith))
      ∙ get_or-modify-same bytes p (val % 256) 0 (omega arith) in
    let width : 2 ^ (8 * suc n) ≡ 256 * 2 ^ (8 * n) =
      ap (λ (t : ℕ). 2 ^ t) eight ∙ pow-add 8 (8 * n) in
    rw (first, low, rest, width) (low_byte val (2 ^ (8 * n)) (pow_pos (8 * n)))
