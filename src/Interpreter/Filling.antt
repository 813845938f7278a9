-- ===== src/Interpreter/Filling.antt =====
-- The copies of src/interpreter/in_place_dt.c and the loop of its `table_fill`.
use silverfir.Prelude.{
  ℕ, zero, suc, ◌+◌, ◌-◌, ◌%◌, ◌^◌, ◌≤◌, ◌<◌, ◌≡◌, refl, ◌⊎◌, inl, inr, ap, ◌∙◌, sym, List, [], ◌∷◌,
  ◌++◌, length, get_or, take, drop, modify, arith, length-modify, length-drop, length-append,
}
use silverfir.Result.{ok}
use silverfir.Interpreter.Bytes.{write_at-inside}
use silverfir.Interpreter.Memory.{cells}
use silverfir.Interpreter.Bulk.{splice, fill_loop}

pub length-take : (n : ℕ) (xs : List ℕ) → n ≤ length xs → length (take n xs) ≡ n
length-take zero xs h = refl
length-take (suc n) [] h = absurd (omega arith)
length-take (suc n) (x ∷ xs) h = ap suc (length-take n xs (omega arith))

pub get_or-drop : (n : ℕ) (xs : List ℕ) (i : ℕ) → get_or (drop n xs) i 0 ≡ get_or xs (n + i) 0
get_or-drop zero xs i = let e : zero + i ≡ i = omega arith in rw e refl
get_or-drop (suc n) [] i = refl
get_or-drop (suc n) (x ∷ xs) i =
    let e : suc n + i ≡ suc (n + i) = omega arith in rw e (get_or-drop n xs i)

pub get_or-take : (n : ℕ) (xs : List ℕ) (i : ℕ) → i < n → get_or (take n xs) i 0 ≡ get_or xs i 0
get_or-take zero xs i h = absurd (omega arith)
get_or-take (suc n) [] i h = refl
get_or-take (suc n) (x ∷ xs) zero h = refl
get_or-take (suc n) (x ∷ xs) (suc i) h = get_or-take n xs i (omega arith)

get_or-append_left :
    (xs ys : List ℕ) (i : ℕ) → i < length xs → get_or (xs ++ ys) i 0 ≡ get_or xs i 0
get_or-append_left [] ys i h = absurd (omega arith)
get_or-append_left (x ∷ xs) ys zero h = refl
get_or-append_left (x ∷ xs) ys (suc i) h = get_or-append_left xs ys i (omega arith)

get_or-append_right :
    (xs ys : List ℕ) (i j : ℕ) → i ≡ length xs + j → get_or (xs ++ ys) i 0 ≡ get_or ys j 0
get_or-append_right [] ys i j h = let e : i ≡ j = omega arith in rw e refl
get_or-append_right (x ∷ xs) ys zero j h = absurd (omega arith)
get_or-append_right (x ∷ xs) ys (suc i) j h = get_or-append_right xs ys i j (omega arith)

module _ (xs : List ℕ) (dst : ℕ) (ys : List ℕ) (fits : dst + length ys ≤ length xs) where
  pub length-splice : length (splice xs dst ys) ≡ length xs
  unfolding splice
  length-splice = omega (
    arith,
    length-append (take dst xs) (ys ++ drop (dst + length ys) xs),
    length-append ys (drop (dst + length ys) xs),
    length-drop (dst + length ys) xs,
    length-take dst xs (omega arith),
  )

  pub get_or-splice-inside :
      (i : ℕ) → i < length ys → get_or (splice xs dst ys) (dst + i) 0 ≡ get_or ys i 0
  unfolding splice
  get_or-splice-inside i h =
      let front = length-take dst xs (omega arith) in
      get_or-append_right (take dst xs) (ys ++ drop (dst + length ys) xs) (dst + i) i (omega arith)
      ∙ get_or-append_left ys (drop (dst + length ys) xs) i h

  pub get_or-splice-outside :
      (i : ℕ) → (i < dst) ⊎ (dst + length ys ≤ i) → get_or (splice xs dst ys) i 0 ≡ get_or xs i 0
  unfolding splice
  get_or-splice-outside i h =
      let front = length-take dst xs (omega arith) in
      let back = ys ++ drop (dst + length ys) xs in
      elim h [
        | inl before ↦
            get_or-append_left (take dst xs) back i (omega arith) ∙ get_or-take dst xs i before
        | inr after ↦
            let j = i - (dst + length ys) in
            let at : dst + length ys + j ≡ i = omega arith in
            get_or-append_right (take dst xs) back i (length ys + j) (omega arith)
            ∙ get_or-append_right ys (drop (dst + length ys) xs) (length ys + j) j refl
            ∙ get_or-drop (dst + length ys) xs j
            ∙ ap (λ (t : ℕ). get_or xs t 0) at
      ]

-- One element more, and the rest behind it.
pub splice-modify :
    (xs : List ℕ) (dst x : ℕ) (ys : List ℕ)
    → dst < length xs
    → splice (modify xs dst (λ _. x)) (suc dst) ys ≡ splice xs dst (x ∷ ys)
unfolding splice
splice-modify [] dst x ys h = absurd (omega arith)
splice-modify (y ∷ xs) zero x ys h =
    let e : 1 + length ys ≡ suc (length ys) = omega arith in
    let e' : 0 + suc (length ys) ≡ suc (length ys) = omega arith in rw (e, e') refl
splice-modify (y ∷ xs) (suc dst) x ys h =
    let e : suc (suc dst) + length ys ≡ suc (suc dst + length ys) = omega arith in
    let e' : suc dst + suc (length ys) ≡ suc (dst + suc (length ys)) = omega arith in
    rw (e, e') (ap (λ (t : List ℕ). y ∷ t) (splice-modify xs dst x ys (omega arith)))

pub splice_nothing : (xs : List ℕ) (dst : ℕ) → splice xs dst [] ≡ xs
unfolding splice
splice_nothing [] zero = refl
splice_nothing [] (suc dst) = let e : suc dst + 0 ≡ suc (dst + 0) = omega arith in rw e refl
splice_nothing (x ∷ xs) zero = refl
splice_nothing (x ∷ xs) (suc dst) =
    let e : suc dst + 0 ≡ suc (dst + 0) = omega arith in
    rw e (ap (λ (t : List ℕ). x ∷ t) (splice_nothing xs dst))

pub fill_loop-inside :
    (size : ℕ) (tdata : List ℕ) (at type : ℕ)
    → at + size ≤ length tdata
    → length tdata < 2 ^ 64
    → fill_loop size tdata at type ≡ ok (splice tdata at (cells size type))
unfolding fill_loop cells
fill_loop-inside zero tdata at type h long = ap ok (sym (splice_nothing tdata at))
fill_loop-inside (suc size) tdata at type h long =
    let next : (at + 1) % 2 ^ 64 ≡ suc at = omega arith in
    let same = length-modify tdata at (λ _. type) in
    rw
      (
        write_at-inside tdata at type (omega arith),
        next,
        sym (splice-modify tdata at type (cells size type) (omega arith)),
      )
      (fill_loop-inside size (modify tdata at (λ _. type)) (suc at) type (omega arith)
        (omega arith))
