-- ===== src/Validator/Link/Stored.antt =====
-- What `validator_on_decode_end` of src/runtime/validator.c stores in the jump table.
use silverfir.Prelude.{
  ℕ, zero, suc, ◌+◌, ◌≤◌, ◌<◌, ◌≡◌, ◌≢◌, refl, sym, ◌∙◌, ap, arith, true, List, Option, none, some,
  length, get_elem?, length-modify, get_elem-modify-same, get_elem-lt, get_elem-ne-none,
}
use native.Mathlib.Decide.{dec_lt}
use silverfir.Result.{ok}
use silverfir.Module.{JumpTable}
use silverfir.Validator.Context.{Context}
use silverfir.Validator.Link.{is_forward, set_next, next_of, link_slot, link_from, on_decode_end}
use silverfir.Validator.Link.Nearest.{IsNearest, next_of-IsNearest}
use silverfir.Validator.Link.Unmoved.{
  SamePlace, SamePlace-refl, modify-SamePlace, modify-other, next_of-same,
}

-- The record with the index that the search gives.
abbrev pub linked : Option ℕ → JumpTable → JumpTable
linked none slot = slot
linked (some j) slot = record slot { next_idx = j }

-- The table after one record is linked.
module _ (i : ℕ) (slot : JumpTable) (jt : List JumpTable) where
  link_slot-SamePlace :
      (o : Option ℕ) (j : ℕ)
      → next_of i slot jt ≡ o
      → SamePlace (get_elem? jt j) (get_elem? (link_slot i slot jt) j)
  unfolding link_slot
  link_slot-SamePlace none j e = rw (e, link_slot) (SamePlace-refl (get_elem? jt j))
  link_slot-SamePlace (some n) j e = rw (e, link_slot) (modify-SamePlace jt i j n)

  length-link_slot :
      (o : Option ℕ) → next_of i slot jt ≡ o → length jt ≡ length (link_slot i slot jt)
  unfolding link_slot
  length-link_slot none e = rw (e, link_slot) refl
  length-link_slot (some n) e = rw (e, link_slot) (sym (length-modify jt i (set_next n)))

  link_slot-other :
      (o : Option ℕ) (j : ℕ)
      → next_of i slot jt ≡ o
      → i ≢ j
      → get_elem? (link_slot i slot jt) j ≡ get_elem? jt j
  unfolding link_slot
  link_slot-other none j e h = rw (e, link_slot) refl
  link_slot-other (some n) j e h = rw (e, link_slot) (modify-other jt i j n h)

  link_slot-own :
      (o : Option ℕ)
      → next_of i slot jt ≡ o
      → get_elem? jt i ≡ some slot
      → get_elem? (link_slot i slot jt) i ≡ some (linked o slot)
  unfolding link_slot set_next
  link_slot-own none e at = rw (e, link_slot) at
  link_slot-own (some n) e at = rw (e, link_slot) (get_elem-modify-same (set_next n) jt i slot at)

-- Later rounds leave the records before theirs.
link_from-round :
    (rounds i j : ℕ) (jt : List JumpTable) (o : Option JumpTable)
    → get_elem? jt i ≡ o
    → j < i
    → ((slot : JumpTable)
        → get_elem? (link_from rounds (i + 1) (link_slot i slot jt)) j
          ≡ get_elem? (link_slot i slot jt) j)
    → get_elem? (link_from (suc rounds) i jt) j ≡ get_elem? jt j
unfolding link_from
link_from-round rounds i j jt none e h later = rw (e, link_from) refl
link_from-round rounds i j jt (some slot) e h later =
    rw (e, link_from)
      (later slot ∙ link_slot-other i slot jt (next_of i slot jt) j refl (λ s. omega arith))

link_from-before :
    (rounds i j : ℕ) (jt : List JumpTable)
    → j < i
    → get_elem? (link_from rounds i jt) j ≡ get_elem? jt j
unfolding link_from
link_from-before zero i j jt h = refl
link_from-before (suc rounds) i j jt h =
    link_from-round rounds i j jt (get_elem? jt i) refl h
      (λ slot. link_from-before rounds (i + 1) j (link_slot i slot jt) (omega arith))

-- What the loop stores at j is what the search on the first table gives for the record there.
link_from-stores-round :
    (rounds i j : ℕ) (slot : JumpTable) (jt : List JumpTable) (o : Option JumpTable)
    → get_elem? jt i ≡ o
    → i ≤ j
    → get_elem? jt j ≡ some slot
    → ((first : JumpTable)
        → i ≢ j
        → get_elem? (link_slot i first jt) j ≡ some slot
        → get_elem? (link_from rounds (i + 1) (link_slot i first jt)) j
          ≡ some (linked (next_of j slot (link_slot i first jt)) slot))
    → get_elem? (link_from (suc rounds) i jt) j ≡ some (linked (next_of j slot jt) slot)
unfolding link_from
link_from-stores-round rounds i j slot jt none e h at later =
    absurd (get_elem-ne-none jt i (let p = get_elem-lt jt j slot at in omega arith) e)
link_from-stores-round rounds i j slot jt (some first) e h at later = elim (dec_lt i j) [
  | yes p ↦
      let o = next_of i first jt in
      let kept = link_slot-other i first jt o j refl (λ s. omega arith) ∙ at in
      let search =
        next_of-same slot jt (link_slot i first jt) (λ k. link_slot-SamePlace i first jt o k refl) j
          (length-link_slot i first jt o refl) in
      rw (e, link_from)
        (later first (λ s. omega arith) kept ∙ ap (λ t. some (linked t slot)) (sym search))
  | no p ↦
      let own : i ≡ j = omega (arith, p) in
      let at' : get_elem? jt i ≡ some slot = rw own at in
      let same : first ≡ slot = cc in
      let before = link_from-before rounds (i + 1) i (link_slot i first jt) (omega arith) in
      rw (e, link_from)
        (rw (← own, ← same) (before ∙ link_slot-own i first jt (next_of i first jt) refl e))
]

link_from-stores :
    (rounds i j : ℕ) (slot : JumpTable) (jt : List JumpTable)
    → i ≤ j
    → j < i + rounds
    → get_elem? jt j ≡ some slot
    → get_elem? (link_from rounds i jt) j ≡ some (linked (next_of j slot jt) slot)
link_from-stores zero i j slot jt h room at = absurd (omega arith)
link_from-stores (suc rounds) i j slot jt h room at =
    link_from-stores-round rounds i j slot jt (get_elem? jt i) refl h at (λ first other kept.
      link_from-stores rounds (i + 1) j slot (link_slot i first jt) (omega (arith, other))
        (omega arith) kept)

on_decode_end-stores :
    (ctx ctx' : Context) (i : ℕ) (slot : JumpTable)
    → on_decode_end ctx ≡ ok ctx'
    → get_elem? ctx.jt i ≡ some slot
    → get_elem? ctx'.f.jt i ≡ some (linked (next_of i slot ctx.jt) slot)
unfolding on_decode_end
on_decode_end-stores ctx ctx' i slot e at =
    let stored : ctx'.f.jt ≡ link_from (length ctx.jt) 0 ctx.jt = cc in
    rw stored (
      link_from-stores (length ctx.jt) 0 i slot ctx.jt (omega arith)
        (let p = get_elem-lt ctx.jt i slot at in omega arith) at)

-- When `on_decode_end` has run, the record of a forward branch in the function's jump table has as
-- `next_idx` the index, cut to 16 bits, of the first record after its own that lies behind its
-- target, and is as it was where the table has no such record.
pub on_decode_end-IsNearest :
    (ctx ctx' : Context) (i : ℕ) (slot : JumpTable)
    → on_decode_end ctx ≡ ok ctx'
    → get_elem? ctx.jt i ≡ some slot
    → is_forward slot ≡ true
    → (o : Option ℕ) × (get_elem? ctx'.f.jt i ≡ some (linked o slot))
      × IsNearest slot (i + 1) ctx.jt o
on_decode_end-IsNearest ctx ctx' i slot e at forward = (
  next_of i slot ctx.jt,
  on_decode_end-stores ctx ctx' i slot e at,
  next_of-IsNearest i slot ctx.jt forward,
)
