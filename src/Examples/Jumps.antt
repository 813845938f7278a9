-- ===== src/Examples/Jumps.antt =====
-- The jump table and the operand stack of src/runtime/validator.c on small states.
use silverfir.Prelude.{ℕ, Option, ◌≡◌, refl, arith, true, List, [], ◌∷◌, some, get_elem?}
use silverfir.Result.{ok}
use silverfir.Format.{type_id_i32, type_id_i64}
use silverfir.Module.{JumpTable}
use silverfir.Validator.Context.{
  Context, back_frame, pop_val, pop_val_expect, pop_each, pop_vals_to_vec, pop_vals, pop_ctrl,
  set_unreachable, push_slot, push_vals, push_val, stack_offset_of, frame_at, label_types,
}
use silverfir.Validator.Context.Invariant.{IsOpen}
use silverfir.Validator.Branch.{on_br_or_if, record_branch}
use silverfir.Validator.Link.{
  set_next, search_up, search_down, next_of, link_slot, link_from, on_decode_end,
}
use silverfir.Validator.Link.Nearest.{IsNearest}
use silverfir.Validator.Link.Stored.{linked, on_decode_end-IsNearest}
use silverfir.Validator.Context.Leftovers.{pop_ctrl-push_vals}
use silverfir.Validator.Offsets.{IsRecorded, on_br_or_if-IsRecorded}
use silverfir.Validator.Context.Exact.{AllServe, pop_vals_to_vec-exact}
use silverfir.Opcode.{op_br}
use silverfir.Examples.Data.{block_frame, block_slot, block_context}

-- A block that leaves an i64 below its result.
abbrev one_left : Context
one_left = record block_context { val_stack = type_id_i64 ∷ [] }

abbrev one_left_pushed : Context
one_left_pushed = record block_context {
  val_stack = type_id_i32 ∷ type_id_i64 ∷ [];
  stack_size_max = 2;
}

one_left-IsOpen : IsOpen one_left
one_left-IsOpen = record {
  valid = record { frames = (omega arith, tt); slots = ((omega arith, tt), tt) };
  has_frame = omega arith;
}

one_left-push_vals : push_vals (type_id_i32 ∷ []) one_left ≡ ok one_left_pushed
unfolding push_vals push_val
one_left-push_vals = refl

pop_ctrl-push_vals_example :
    pop_ctrl one_left_pushed
    ≡ ok (block_frame, record one_left_pushed { val_stack = type_id_i64 ∷ []; ctrl_stack = [] })
pop_ctrl-push_vals_example =
    pop_ctrl-push_vals one_left one_left_pushed block_frame [] one_left-IsOpen refl
      one_left-push_vals

-- A branch from 3 to 9, and two records behind it.
abbrev branches : List JumpTable
branches =
    record block_slot { target_offset = 6 }
    ∷ record block_slot { pc = 7 }
    ∷ record block_slot { pc = 12 }
    ∷ []

abbrev branching : Context
branching = record block_context { jt = branches }

-- Its record gets the index 2, and the others keep theirs.
abbrev branching_ended : Context
branching_ended =
    let jt =
      record block_slot { target_offset = 6; next_idx = 2 }
      ∷ record block_slot { pc = 7 }
      ∷ record block_slot { pc = 12 }
      ∷ [] in
    record branching { jt = jt; f = record branching.f { jt = jt } }

branching-ok : on_decode_end branching ≡ ok branching_ended
unfolding on_decode_end link_from link_slot set_next next_of search_up search_down
branching-ok = refl

on_decode_end-IsNearest_example :
    (o : Option ℕ) × (get_elem? branching_ended.f.jt 0
      ≡ some (linked o (record block_slot { target_offset = 6 })))
    × IsNearest (record block_slot { target_offset = 6 }) 1 branches o
on_decode_end-IsNearest_example =
    on_decode_end-IsNearest branching branching_ended 0 (record block_slot { target_offset = 6 })
      branching-ok refl refl

-- A `br 0` out of the block, with one operand more than it carries.
abbrev two_operands : Context
two_operands = record block_context { val_stack = type_id_i32 ∷ type_id_i64 ∷ [] }

abbrev two_operands_after : Context
two_operands_after = record two_operands {
  val_stack = [];
  ctrl_stack = record block_frame { unreachable = true; pending_jt_slots = 0 ∷ 1 ∷ [] } ∷ [];
  jt =
      block_slot
      ∷ record { pc = 5; target_offset = 0; stack_offset = 1; arity = 1; next_idx = 0xffff }
      ∷ [];
}

two_operands-br :
    on_br_or_if op_br (record { s = []; p = 5 }) 0 two_operands ≡ ok two_operands_after
unfolding on_br_or_if record_branch push_slot stack_offset_of frame_at label_types pop_vals
    pop_vals_to_vec pop_each pop_val_expect pop_val back_frame set_unreachable
two_operands-br = refl

two_operands-IsOpen : IsOpen two_operands
two_operands-IsOpen = record {
  valid = record { frames = (omega arith, tt); slots = ((omega arith, tt), tt) };
  has_frame = omega arith;
}

on_br_or_if-IsRecorded_example :
    (slot : JumpTable) × (get_elem? two_operands_after.jt 1 ≡ some slot)
    × IsRecorded 5 2 block_frame slot
unfolding label_types
on_br_or_if-IsRecorded_example =
    on_br_or_if-IsRecorded op_br (record { s = []; p = 5 }) 0 block_frame two_operands
      two_operands_after two_operands-IsOpen
      (record { frame = block_frame; below = []; top = refl; reachable = refl }) refl (omega arith)
      (omega arith) two_operands-br

popped_one :
    pop_vals_to_vec (type_id_i32 ∷ []) two_operands
    ≡ ok (type_id_i32 ∷ [], record two_operands { val_stack = type_id_i64 ∷ [] })
unfolding pop_vals_to_vec pop_each pop_val_expect pop_val back_frame
popped_one = refl

pop_vals_to_vec-exact_example :
    (two_operands.val_stack ≡ type_id_i32 ∷ type_id_i64 ∷ [])
    × AllServe (type_id_i32 ∷ []) (type_id_i32 ∷ [])
pop_vals_to_vec-exact_example =
    pop_vals_to_vec-exact (type_id_i32 ∷ []) (type_id_i32 ∷ []) two_operands
      (record two_operands { val_stack = type_id_i64 ∷ [] })
      (record { frame = block_frame; below = []; top = refl; reachable = refl }) popped_one

-- A branch from 10 back to 4, and a record between.
abbrev back_slot : JumpTable
back_slot = record block_slot { pc = 10; target_offset = 4294967290 }

abbrev back_table : List JumpTable
back_table = record block_slot { pc = 7 } ∷ back_slot ∷ []

abbrev back : Context
back = record block_context { jt = back_table }

-- Both records are behind the target, and the lower one is linked.
abbrev back_ended : Context
back_ended =
    let jt = record block_slot { pc = 7 } ∷ record back_slot { next_idx = 0 } ∷ [] in
    record back { jt = jt; f = record back.f { jt = jt } }
