-- ===== src/Validator/Link/Backward.antt =====
-- The record that src/runtime/validator.c links a backward branch to, in a table in the order of
-- the positions.
use silverfir.Prelude.{
  ℕ, zero, suc, ◌+◌, ◌≤◌, ◌<◌, ◌≡◌, refl, inl, inr, arith, true, false, Bool-cases, List, Option,
  none, some, length, u16, get_elem?, get_elem-in,
}
use silverfir.Module.{JumpTable}
use silverfir.Validator.Link.{is_behind, is_forward, search_down, next_of}
use silverfir.Validator.Link.Nearest.{NotBehind}

-- The positions do not fall.
abbrev pub IsOrdered : List JumpTable → Type 0
IsOrdered jt =
    (m k : ℕ) (a b : JumpTable)
    → m ≤ k
    → get_elem? jt m ≡ some a
    → get_elem? jt k ≡ some b
    → a.pc ≤ b.pc

-- The index, cut to 16 bits, of the first record that lies behind the target of the slot, if it is
-- below the bound.
pub data IsFirstBelow (slot : JumpTable) (bound : ℕ) (jt : List JumpTable) : Option ℕ → Type 0 where
  found :
      {k : ℕ} {next_slot : JumpTable}
      → k < bound
      → get_elem? jt k ≡ some next_slot
      → is_behind slot next_slot ≡ true
      → ((m : ℕ) → m < k → NotBehind slot jt m)
      → IsFirstBelow slot bound jt (some (u16 k))
  not_found : ((m : ℕ) → m < bound → NotBehind slot jt m) → IsFirstBelow slot bound jt none

module _ (slot : JumpTable) (jt : List JumpTable) (bound : ℕ) (ordered : IsOrdered jt)
    (inside : bound ≤ length jt) where
  -- What the search has kept when it has come down to j.
  data IsKept (j : ℕ) : Option ℕ → Type 0 where
    nothing : j ≡ bound → IsKept j none
    here :
        {next_slot : JumpTable}
        → j < bound
        → get_elem? jt j ≡ some next_slot
        → is_behind slot next_slot ≡ true
        → IsKept j (some (u16 j))

  below-NotBehind :
      (j m : ℕ) (next_slot : JumpTable)
      → get_elem? jt j ≡ some next_slot
      → is_behind slot next_slot ≡ false
      → m ≤ j
      → NotBehind slot jt m
  below-NotBehind j m next_slot e b h other f =
      let le = ordered m j other next_slot h f e in ground (arith, le)

  stop :
      (j : ℕ) (o : Option ℕ)
      → ((m : ℕ) → m < j → NotBehind slot jt m)
      → IsKept j o
      → IsFirstBelow slot bound jt o
  stop j none before (nothing e) = not_found (λ m h. before m (omega arith))
  stop j (some _) before (here h e b) = found h e b before

  search_down-IsFirstBelow :
      (j : ℕ) (o : Option ℕ)
      → j ≤ bound
      → IsKept j o
      → IsFirstBelow slot bound jt (search_down j slot o jt)
  unfolding search_down
  search_down-IsFirstBelow zero o h kept = stop zero o (λ m p. absurd (omega arith)) kept
  search_down-IsFirstBelow (suc j) o h kept =
      let (next_slot, e) = get_elem-in jt j (omega arith) in
      elim (Bool-cases (is_behind slot next_slot)) [
        | inl b ↦
            rw (e, search_down)
              (rw b
                (search_down-IsFirstBelow j (some (u16 j)) (omega arith) (here (omega arith) e b)))
        | inr b ↦
            rw (e, search_down)
              (rw b (stop (suc j) o (λ m p. below-NotBehind j m next_slot e b (omega arith)) kept))
      ]

-- For a branch that does not go forward the search gives the first record up to its own that lies
-- behind its target, in a table whose positions do not fall, and none only where they all lie before.
pub next_of-IsFirstBelow :
    (i : ℕ) (slot : JumpTable) (jt : List JumpTable)
    → IsOrdered jt
    → i < length jt
    → is_forward slot ≡ false
    → IsFirstBelow slot (i + 1) jt (next_of i slot jt)
unfolding next_of
next_of-IsFirstBelow i slot jt ordered inside h =
    rw (h, next_of)
      (search_down-IsFirstBelow slot jt (i + 1) ordered (omega arith) (i + 1) none (omega arith)
        (nothing refl))
