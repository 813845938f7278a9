-- ===== src/Validator/Link.antt =====
-- src/runtime/validator.c: `validator_on_decode_end`, which links each record of the jump table to the
-- first record behind its target.
pub mod Nearest
pub mod Backward
pub mod Unmoved
pub mod Stored
use silverfir.Prelude.{
  ℕ, zero, suc, ◌+◌, ◌^◌, Bool, List, Option, none, some, length, get_elem?, modify, ltb, ◌&&◌,
  if◌then◌else◌, u32, u16,
}
use silverfir.Result.{Result, ok}
use silverfir.Module.{JumpTable}
use silverfir.Validator.Context.{Context}

-- `next_slot->pc > (slot->pc + slot->target_offset)`, on 32 bits.
abbrev pub is_behind : JumpTable → JumpTable → Bool
is_behind slot next_slot = ltb (u32 (slot.pc + slot.target_offset)) next_slot.pc

-- `slot->target_offset > 0`
abbrev pub is_forward : JumpTable → Bool
is_forward slot = ltb 0 slot.target_offset && ltb slot.target_offset (2 ^ 31)

-- `slot->next_idx = ...`
unfoldable pub set_next : ℕ → JumpTable → JumpTable
set_next j slot = record slot { next_idx = j }

-- The search upwards from `j`, for as many rounds as there are records left. It gives the index
-- that is stored, `(u16)j`.
unfoldable pub search_up : ℕ → JumpTable → ℕ → List JumpTable → Option ℕ
search_up zero slot j jt = none
search_up (suc rounds) slot j jt = elim (get_elem? jt j) [
  | none ↦ none
  | some next_slot ↦ elim (is_behind slot next_slot) [
    | Bool.true ↦ some (u16 j)
    | Bool.false ↦ search_up rounds slot (j + 1) jt
  ]
]

-- The search downwards below `j`, which stores the index of each record that passes in turn; the
-- last one stays.
unfoldable pub search_down : ℕ → JumpTable → Option ℕ → List JumpTable → Option ℕ
search_down zero slot found jt = found
search_down (suc j) slot found jt = elim (get_elem? jt j) [
  | none ↦ found
  | some next_slot ↦ elim (is_behind slot next_slot) [
    | Bool.true ↦ search_down j slot (some (u16 j)) jt
    | Bool.false ↦ found
  ]
]

unfoldable pub next_of : ℕ → JumpTable → List JumpTable → Option ℕ
next_of i slot jt =
    if is_forward slot
    then search_up (length jt) slot (i + 1) jt
    else search_down (i + 1) slot none jt

unfoldable pub link_slot : ℕ → JumpTable → List JumpTable → List JumpTable
unfolding set_next next_of
link_slot i slot jt = elim (next_of i slot jt) [ none ↦ jt | some j ↦ modify jt i (set_next j) ]

unfoldable pub link_from : ℕ → ℕ → List JumpTable → List JumpTable
link_from zero i jt = jt
link_from (suc rounds) i jt = elim (get_elem? jt i) [
  | none ↦ jt
  | some slot ↦ link_from rounds (i + 1) (link_slot i slot jt)
]

unfoldable pub on_decode_end : Context → Result Context
on_decode_end ctx =
    let jt = link_from (length ctx.jt) 0 ctx.jt in
    ok (record ctx { jt = jt; f = record ctx.f { jt = jt; stack_size_max = ctx.stack_size_max } })
