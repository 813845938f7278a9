-- ===== src/Validator/Link/Nearest.antt =====
-- The record that src/runtime/validator.c links a forward branch to.
use silverfir.Prelude.{
  ℕ, zero, suc, ◌+◌, ◌≤◌, ◌<◌, ◌≡◌, refl, inl, inr, arith, true, false, Bool-cases, List, Option,
  none, some, length, u16, get_elem?, get_elem-ne-none, get_elem-past,
}
use native.Mathlib.Decide.{dec_lt}
use silverfir.Module.{JumpTable}
use silverfir.Validator.Link.{is_behind, is_forward, search_up, next_of}

-- No record at m lies behind the target.
abbrev pub NotBehind : JumpTable → List JumpTable → ℕ → Type 0
NotBehind slot jt m =
    (next_slot : JumpTable) → get_elem? jt m ≡ some next_slot → is_behind slot next_slot ≡ false

-- The index, cut to 16 bits, of the first record from j on that lies behind the target of the slot,
-- or none where there is none.
pub data IsNearest (slot : JumpTable) (j : ℕ) (jt : List JumpTable) : Option ℕ → Type 0 where
  found :
      {k : ℕ} {next_slot : JumpTable}
      → j ≤ k
      → get_elem? jt k ≡ some next_slot
      → is_behind slot next_slot ≡ true
      → ((m : ℕ) → j ≤ m → m < k → NotBehind slot jt m)
      → IsNearest slot j jt (some (u16 k))
  not_found : ((m : ℕ) → j ≤ m → NotBehind slot jt m) → IsNearest slot j jt none

module _ (slot : JumpTable) (jt : List JumpTable) where
  past_end : (m : ℕ) → get_elem? jt m ≡ none → NotBehind slot jt m
  past_end m h next_slot e = cc

  same_slot :
      (j : ℕ) (next_slot : JumpTable)
      → get_elem? jt j ≡ some next_slot
      → is_behind slot next_slot ≡ false
      → NotBehind slot jt j
  same_slot j next_slot e b other f = let same : next_slot ≡ other = cc in rw (← same) b

  next_past : (j : ℕ) → get_elem? jt j ≡ none → (m : ℕ) → j ≤ m → get_elem? jt m ≡ none
  next_past j e m h = elim (dec_lt m (length jt)) [
    | yes p ↦ absurd (get_elem-ne-none jt j (omega arith) e)
    | no p ↦ get_elem-past jt m (omega (arith, p))
  ]

  at_or_after :
      (j m : ℕ)
      → NotBehind slot jt j
      → j ≤ m
      → (j + 1 ≤ m → NotBehind slot jt m)
      → NotBehind slot jt m
  at_or_after j m n p h = elim (dec_lt j m) [
    | yes q ↦ h (omega arith)
    | no q ↦ let e : m ≡ j = omega (arith, q) in rw e n
  ]

  -- A record that is not behind the target can be skipped.
  skip :
      (j : ℕ) (o : Option ℕ)
      → NotBehind slot jt j
      → IsNearest slot (j + 1) jt o
      → IsNearest slot j jt o
  skip j (some _) n (found h e b before) =
      found (omega arith) e b (λ m p q. at_or_after j m n p (λ r. before m r q))
  skip j none n (not_found rest) = not_found (λ m p. at_or_after j m n p (λ r. rest m r))

  -- A round of the search, given what the later ones find.
  search_up-round :
      (rounds j : ℕ) (o : Option JumpTable)
      → get_elem? jt j ≡ o
      → IsNearest slot (j + 1) jt (search_up rounds slot (j + 1) jt)
      → IsNearest slot j jt (search_up (suc rounds) slot j jt)
  unfolding search_up
  search_up-round rounds j none e r =
      rw (e, search_up) (not_found (λ m p. past_end m (next_past j e m p)))
  search_up-round rounds j (some next_slot) e r = elim (Bool-cases (is_behind slot next_slot)) [
    | inl b ↦ rw (e, search_up) (rw b (found (omega arith) e b (λ m p q. absurd (omega arith))))
    | inr b ↦
        rw (e, search_up)
          (rw b (skip j (search_up rounds slot (j + 1) jt) (same_slot j next_slot e b) r))
  ]

  search_up-IsNearest :
      (rounds j : ℕ) → length jt ≤ j + rounds → IsNearest slot j jt (search_up rounds slot j jt)
  unfolding search_up
  search_up-IsNearest zero j h = not_found (λ m p. past_end m (get_elem-past jt m (omega arith)))
  search_up-IsNearest (suc rounds) j h =
      search_up-round rounds j (get_elem? jt j) refl
        (search_up-IsNearest rounds (j + 1) (omega arith))

-- For a forward branch the search gives the first record after its own that lies behind its target,
-- and none only where the table has no such record.
pub next_of-IsNearest :
    (i : ℕ) (slot : JumpTable) (jt : List JumpTable)
    → is_forward slot ≡ true
    → IsNearest slot (i + 1) jt (next_of i slot jt)
unfolding next_of
next_of-IsNearest i slot jt h =
    rw (h, next_of) (search_up-IsNearest slot jt (length jt) (i + 1) (omega arith))
