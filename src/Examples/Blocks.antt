-- ===== src/Examples/Blocks.antt =====
-- The end of a block with one branch, in src/runtime/validator.c.
use silverfir.Prelude.{[], ◌∷◌, ◌≡◌, refl}
use silverfir.Result.{ok}
use silverfir.Validator.Context.{
  Context, pop_ctrl, pop_vals, pop_vals_to_vec, pop_each, pop_val_expect, pop_val, back_frame,
  set_target, push_vals, push_val,
}
use silverfir.Validator.Control.{on_end, resolve_slots}
use silverfir.Examples.Data.{block_slot, block_context}

abbrev pub block_ended : Context
block_ended = record block_context {
  ctrl_stack = [];
  stack_size_max = 1;
  jt = record block_slot { target_offset = 6 } ∷ [];
}

pub on_end-ok : on_end (record { s = []; p = 9 }) block_context ≡ ok block_ended
unfolding on_end pop_ctrl pop_vals pop_vals_to_vec pop_each pop_val_expect pop_val back_frame
    resolve_slots set_target push_vals push_val
on_end-ok = refl

-- The same with a branch that drops one operand.
abbrev pub dropping_context : Context
dropping_context = record block_context { jt = record block_slot { stack_offset = 1 } ∷ [] }

abbrev pub dropping_ended : Context
dropping_ended = record block_ended {
  jt = record block_slot { stack_offset = 1; target_offset = 6 } ∷ [];
}

pub on_end-drops : on_end (record { s = []; p = 9 }) dropping_context ≡ ok dropping_ended
unfolding on_end pop_ctrl pop_vals pop_vals_to_vec pop_each pop_val_expect pop_val back_frame
    resolve_slots set_target push_vals push_val
on_end-drops = refl
