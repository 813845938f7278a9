-- ===== src/Validator/Link/Unmoved.antt =====
-- The searches of src/runtime/validator.c on two tables whose positions and targets agree.
use silverfir.Prelude.{
  ℕ, zero, suc, ◌+◌, ◌≡◌, ◌≢◌, refl, ◌∙◌, ap, inl, inr, Bool-cases, List, [], ◌∷◌, Option, none,
  some, length, get_elem?, modify, u16,
}
use silverfir.Module.{JumpTable}
use silverfir.Validator.Link.{is_behind, set_next, search_up, search_down, next_of}

-- The positions of two tables agree.
abbrev pub SamePlace : Option JumpTable → Option JumpTable → Type 0
SamePlace none none = Unit {0}
SamePlace (some a) (some b) = a.pc ≡ b.pc
SamePlace (some a) none = ⊥
SamePlace none (some b) = ⊥

pub SamePlace-refl : (o : Option JumpTable) → SamePlace o o
SamePlace-refl none = tt
SamePlace-refl (some a) = refl

pub modify-SamePlace :
    (jt : List JumpTable) (i j n : ℕ)
    → SamePlace (get_elem? jt j) (get_elem? (modify jt i (set_next n)) j)
unfolding set_next
modify-SamePlace [] i j n = tt
modify-SamePlace (a ∷ jt) zero zero n = refl
modify-SamePlace (a ∷ jt) zero (suc j) n = SamePlace-refl (get_elem? jt j)
modify-SamePlace (a ∷ jt) (suc i) zero n = refl
modify-SamePlace (a ∷ jt) (suc i) (suc j) n = modify-SamePlace jt i j n

pub modify-other :
    (jt : List JumpTable) (i j n : ℕ)
    → i ≢ j
    → get_elem? (modify jt i (set_next n)) j ≡ get_elem? jt j
modify-other [] i j n h = refl
modify-other (a ∷ jt) zero zero n h = absurd (h refl)
modify-other (a ∷ jt) zero (suc j) n h = refl
modify-other (a ∷ jt) (suc i) zero n h = refl
modify-other (a ∷ jt) (suc i) (suc j) n h = modify-other jt i j n (λ e. h (ap suc e))

module _ (slot : JumpTable) (jt jt' : List JumpTable)
    (same : (j : ℕ) → SamePlace (get_elem? jt j) (get_elem? jt' j)) where
  search_up-round :
      (rounds j : ℕ) (o o' : Option JumpTable)
      → get_elem? jt j ≡ o
      → get_elem? jt' j ≡ o'
      → SamePlace o o'
      → search_up rounds slot (j + 1) jt ≡ search_up rounds slot (j + 1) jt'
      → search_up (suc rounds) slot j jt ≡ search_up (suc rounds) slot j jt'
  unfolding search_up
  search_up-round rounds j none none e e' p later = rw (e, e', search_up) refl
  search_up-round rounds j (some a) (some b) e e' p later =
      let ea : is_behind slot a ≡ is_behind slot b = rw p refl in
      elim (Bool-cases (is_behind slot b)) [
        | inl t ↦ rw (e, e', search_up) (rw (ea ∙ t, t) refl)
        | inr t ↦ rw (e, e', search_up) (rw (ea ∙ t, t) later)
      ]
  search_up-round rounds j none (some b) e e' p later = absurd p
  search_up-round rounds j (some a) none e e' p later = absurd p

  search_up-same : (rounds j : ℕ) → search_up rounds slot j jt ≡ search_up rounds slot j jt'
  unfolding search_up
  search_up-same zero j = refl
  search_up-same (suc rounds) j =
      search_up-round rounds j (get_elem? jt j) (get_elem? jt' j) refl refl (same j)
        (search_up-same rounds (j + 1))

  search_down-round :
      (j : ℕ) (found : Option ℕ) (o o' : Option JumpTable)
      → get_elem? jt j ≡ o
      → get_elem? jt' j ≡ o'
      → SamePlace o o'
      → search_down j slot (some (u16 j)) jt ≡ search_down j slot (some (u16 j)) jt'
      → search_down (suc j) slot found jt ≡ search_down (suc j) slot found jt'
  unfolding search_down
  search_down-round j found none none e e' p later = rw (e, e', search_down) refl
  search_down-round j found (some a) (some b) e e' p later =
      let ea : is_behind slot a ≡ is_behind slot b = rw p refl in
      elim (Bool-cases (is_behind slot b)) [
        | inl t ↦ rw (e, e', search_down) (rw (ea ∙ t, t) later)
        | inr t ↦ rw (e, e', search_down) (rw (ea ∙ t, t) refl)
      ]
  search_down-round j found none (some b) e e' p later = absurd p
  search_down-round j found (some a) none e e' p later = absurd p

  search_down-same :
      (j : ℕ) (found : Option ℕ) → search_down j slot found jt ≡ search_down j slot found jt'
  unfolding search_down
  search_down-same zero found = refl
  search_down-same (suc j) found =
      search_down-round j found (get_elem? jt j) (get_elem? jt' j) refl refl (same j)
        (search_down-same j (some (u16 j)))

  pub next_of-same : (i : ℕ) → length jt ≡ length jt' → next_of i slot jt ≡ next_of i slot jt'
  unfolding next_of
  next_of-same i e = rw (search_up-same (length jt) (i + 1), search_down-same (i + 1) none, e) refl
