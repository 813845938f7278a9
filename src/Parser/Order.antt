-- ===== src/Parser/Order.antt =====
-- The order of the sections in src/runtime/parser.c.
use silverfir.Prelude.{
  ℕ, zero, suc, ◌+◌, ◌≤◌, ◌≡◌, ◌≢◌, refl, sym, ◌∙◌, Bool-cases, inl, inr, arith, ◌==◌, ◌!=◌, List,
  [], ◌∷◌, some, length, drop, get_elem?, length-drop, if◌then◌else◌, false,
}
use silverfir.Result.{ok}
use silverfir.Parser.Binary.{section_order, find_section, advance_order}

-- Where the search stops in front of the end, it has found the id, and starts there anew.
find_section-at :
    (id : ℕ) (xs : List ℕ) (idx : ℕ)
    → find_section id xs idx ≢ idx + length xs
    → (k : ℕ) × (find_section id xs idx ≡ idx + k)
      × (get_elem? xs k ≡ some id)
      × (find_section id (drop k xs) (idx + k) ≡ idx + k)
unfolding find_section
find_section-at id [] idx h = absurd (h (omega arith))
find_section-at id (x ∷ xs) idx h = elim (Bool-cases (x != id)) [
  | inr same ↦ (0, ground arith, ground arith, ground arith)
  | inl other ↦
      let (k, e, g, r) = find_section-at id xs (suc idx) (λ q. h (ground arith)) in
      let n : idx + suc k ≡ suc idx + k = omega arith in (suc k, ground arith, g, rw n r)
]

get_elem-drop : (n k : ℕ) (xs : List ℕ) → get_elem? (drop n xs) k ≡ get_elem? xs (n + k)
get_elem-drop zero k xs = let e : zero + k ≡ k = omega arith in rw e refl
get_elem-drop (suc n) k [] = refl
get_elem-drop (suc n) k (x ∷ xs) =
    let e : suc n + k ≡ suc (n + k) = omega arith in rw e (get_elem-drop n k xs)

drop_nil : (k : ℕ) → drop {A = ℕ} k [] ≡ []
drop_nil zero = refl
drop_nil (suc k) = refl

drop-drop : (n k : ℕ) (xs : List ℕ) → drop k (drop n xs) ≡ drop (n + k) xs
drop-drop zero k xs = let e : zero + k ≡ k = omega arith in rw e refl
drop-drop (suc n) k [] = let e : suc n + k ≡ suc (n + k) = omega arith in rw e (drop_nil k)
drop-drop (suc n) k (x ∷ xs) =
    let e : suc n + k ≡ suc (n + k) = omega arith in rw e (drop-drop n k xs)

-- What an accepted position is, and when a search makes one.
position_of :
    (id idx idx' : ℕ)
    → id ≢ 0
    → advance_order id idx ≡ ok idx'
    → (find_section id (drop idx section_order) idx ≡ idx') × (idx' ≢ length section_order)
unfolding advance_order
position_of id idx idx' nonzero e = (ground arith, λ q. ground arith)

accepted :
    (id idx idx' : ℕ)
    → idx' ≢ length section_order
    → find_section id (drop idx section_order) idx ≡ idx'
    → advance_order id idx ≡ (if id == 0 then ok idx else ok idx')
unfolding advance_order
accepted id idx idx' h e = ground arith

-- A section that is no custom section is accepted only at its place in the order of the format, which
-- is not in front of the last section's. But the position stays on it, so a second section of the
-- same kind is accepted by the test of the order as well.
pub advance_order-place :
    (id idx idx' : ℕ)
    → id ≢ 0
    → idx ≤ length section_order
    → advance_order id idx ≡ ok idx'
    → (idx ≤ idx') × (get_elem? section_order idx' ≡ some id) × (advance_order id idx' ≡ ok idx')
advance_order-place id idx idx' nonzero low e =
    let (found, inside) = position_of id idx idx' nonzero e in
    let n = length-drop idx section_order in
    let short : find_section id (drop idx section_order) idx
        ≢ idx + length (drop idx section_order) =
      λ q. inside (omega (arith, q, found, n, low)) in
    let (k, f, g, r) = find_section-at id (drop idx section_order) idx short in
    let place : idx + k ≡ idx' = omega (arith, f, found) in
    let again = rw (drop-drop idx k section_order, place) at r in
    let other : (id == 0) ≡ false = ground arith in
    (
      omega (arith, place),
      rw (sym place) (sym (get_elem-drop idx k section_order) ∙ g),
      accepted id idx' idx' inside again ∙ rw other refl,
    )
