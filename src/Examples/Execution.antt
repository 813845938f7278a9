-- ===== src/Examples/Execution.antt =====
-- Single instructions of src/interpreter/in_place_dt.c, run on small machines.
use silverfir.Prelude.{
  ℕ, ◌+◌, ◌*◌, ◌≡◌, ◌⊎◌, ◌<◌, inl, refl, arith, true, false, List, [], ◌∷◌, some, length, drop,
  get_or,
}
use silverfir.Result.{ok, err, fault, general}
use silverfir.Stream.Unchecked.{read_vu32_unchecked}
use silverfir.Interpreter.{Instance, Machine, pop, read_imm, write_at}
use silverfir.Interpreter.Control.{exec_br}
use silverfir.Interpreter.Memory.{mem_write, extend, cells, exec_load, exec_store, exec_memory_grow}
use silverfir.Interpreter.Bulk.{
  splice, exec_memory_copy, exec_memory_init, exec_data_drop, exec_table_fill,
}
use silverfir.Interpreter.Bytes.{little_endian}
use silverfir.Interpreter.Access.{exec_load-inside, exec_store-inside, exec_load-exec_store}
use silverfir.Interpreter.Fills.{exec_table_fill-inside, exec_table_fill-fault}
use silverfir.Interpreter.Moves.{exec_memory_copy-moves, exec_memory_init-exec_data_drop}
use silverfir.Interpreter.Branching.{exec_br-on_end}
use silverfir.Interpreter.Numeric.{is_neg, mag}
use silverfir.Interpreter.Numeric.Handlers.{exec_div_s, exec_rem_s}
use silverfir.Interpreter.Numeric.Division.{exec_div_s-exec_rem_s}
use silverfir.Examples.Data.{block_frame, block_slot}
use silverfir.Examples.Blocks.{dropping_context, dropping_ended, on_end-drops}
use silverfir.Examples.Machines.{segment, instance_of, machine}

-- The immediates of an access: alignment 2 and offset 1.
abbrev access : Instance
access = instance_of (2 ∷ 1 ∷ [])

abbrev four_bytes : List ℕ
four_bytes = 10 ∷ 20 ∷ 30 ∷ 40 ∷ []

-- A load of two bytes at 1 + 1, and one that ends behind the memory.
exec_load-inside_example :
    exec_load 32 false 2 access (record machine { stack = 1 ∷ []; mem0 = some four_bytes })
    ≡ ok (record machine { pc = 2; stack = 10270 ∷ []; mem0 = some four_bytes })
unfolding read_vu32_unchecked extend little_endian
exec_load-inside_example = exec_load-inside access machine 2 1 [] four_bytes 32 false

load_past :
    exec_load 32 false 2 access (record machine { stack = 2 ∷ []; mem0 = some four_bytes })
    ≡ err general
unfolding exec_load pop read_imm read_vu32_unchecked
load_past = refl

exec_store-inside_example :
    (bytes' : List ℕ) × (exec_store 2 access
        (record machine { stack = 513 ∷ 1 ∷ []; mem0 = some four_bytes })
      ≡ ok (record machine { pc = 2; stack = []; mem0 = some bytes' }))
    × (length bytes' ≡ 4)
    × (get_or bytes' 1 0 ≡ 20)
    × (little_endian 2 (drop 2 bytes') ≡ 513)
unfolding read_vu32_unchecked
exec_store-inside_example =
    exec_store-inside access machine 2 1 [] four_bytes 513 1 (omega arith) (inl (omega arith))

abbrev stored : Machine
stored = record machine { pc = 2; stack = []; mem0 = some (10 ∷ 20 ∷ 1 ∷ 2 ∷ []) }

store-ok :
    exec_store 2 access (record machine { stack = 513 ∷ 1 ∷ []; mem0 = some four_bytes })
    ≡ ok stored
unfolding exec_store pop read_imm read_vu32_unchecked mem_write write_at
store-ok = refl

exec_load-exec_store_example :
    exec_load 32 false 2 access (record stored { pc = 0; stack = 1 ∷ [] })
    ≡ ok (record stored { stack = 513 ∷ [] })
unfolding read_vu32_unchecked
exec_load-exec_store_example =
    exec_load-exec_store access machine 2 1 [] four_bytes 32 513 stored (omega arith) store-ok

-- The operands of `table_fill` of table 0.
abbrev fill : Instance
fill = instance_of (0 ∷ [])

exec_table_fill-inside_example :
    exec_table_fill fill (record machine { stack = 2 ∷ 9 ∷ 1 ∷ [] })
    ≡ ok (record machine { pc = 1; tables = (5 ∷ 9 ∷ 9 ∷ []) ∷ [] })
unfolding read_vu32_unchecked splice cells
exec_table_fill-inside_example =
    exec_table_fill-inside fill machine 2 9 1 [] 0 (5 ∷ 6 ∷ 7 ∷ []) refl refl (omega arith)
      (omega arith)

exec_table_fill-fault_example :
    exec_table_fill fill (record machine { stack = 1 ∷ 9 ∷ 0xffffffff ∷ [] }) ≡ fault
unfolding read_vu32_unchecked
exec_table_fill-fault_example =
    exec_table_fill-fault fill machine 1 9 0xffffffff [] 0 (5 ∷ 6 ∷ 7 ∷ []) refl refl (omega arith)
      (omega arith) (omega arith) (omega arith) (omega arith)

-- Three bytes move up by one, over themselves.
exec_memory_copy-moves_example :
    (bytes' : List ℕ) × (exec_memory_copy
        (record machine { stack = 3 ∷ 0 ∷ 1 ∷ []; mem0 = some four_bytes })
      ≡ ok (record machine { pc = 2; mem0 = some bytes' }))
    × (length bytes' ≡ 4)
    × (get_or bytes' 3 0 ≡ 30)
    × (get_or bytes' 0 0 ≡ 10)
exec_memory_copy-moves_example =
    exec_memory_copy-moves machine 3 0 1 [] four_bytes 2 0 (omega arith) (omega arith) (omega arith)
      (inl (omega arith))

data_drop-ok :
    exec_data_drop fill machine ≡ ok (record machine { pc = 1; dropped_data = true ∷ [] })
unfolding exec_data_drop write_at read_imm read_vu32_unchecked
data_drop-ok = refl

exec_memory_init-exec_data_drop_example :
    exec_memory_init fill
      (record machine { dropped_data = true ∷ []; stack = 1 ∷ 0 ∷ 0 ∷ []; mem0 = some four_bytes })
    ≡ err general
unfolding read_vu32_unchecked
exec_memory_init-exec_data_drop_example =
    exec_memory_init-exec_data_drop fill (record machine { dropped_data = true ∷ [] }) 1 0 0 []
      four_bytes segment machine (record machine { pc = 1; dropped_data = true ∷ [] }) data_drop-ok
      refl refl refl (omega arith)

-- A branch that carries the 4 and drops the 9.
abbrev dropping : Instance
dropping = record fill {
  jt = record block_slot { stack_offset = 1; target_offset = 6; next_idx = 0xffff } ∷ [];
}

exec_br-on_end_example :
    exec_br dropping (record machine { pc = 3; stack = 4 ∷ 9 ∷ 5 ∷ [] })
    ≡ ok (record machine { pc = 9; next_jt_idx = 0xffff; stack = 4 ∷ 5 ∷ [] })
exec_br-on_end_example =
    exec_br-on_end (record { s = []; p = 9 }) dropping_context dropping_ended block_frame [] 0
      0xffff (record block_slot { stack_offset = 1; target_offset = 6 }) dropping
      (record machine { pc = 3; stack = 4 ∷ 9 ∷ 5 ∷ [] }) refl on_end-drops refl refl refl refl
      (omega arith) (omega arith) (omega arith) (omega arith) (omega arith)

-- -7 by 2 on 32 bits.
exec_div_s-exec_rem_s_example :
    (q r : ℕ) × (exec_div_s 32 (record machine { stack = 2 ∷ 0xfffffff9 ∷ [] })
      ≡ ok (record machine { stack = q ∷ [] }))
    × (exec_rem_s 32 (record machine { stack = 2 ∷ 0xfffffff9 ∷ [] })
        ≡ ok (record machine { stack = r ∷ [] }))
    × (2 * mag 32 q + mag 32 r ≡ 7)
    × (mag 32 r < 2)
    × ((mag 32 q ≡ 0) ⊎ (is_neg 32 q ≡ true))
    × ((mag 32 r ≡ 0) ⊎ (is_neg 32 r ≡ true))
exec_div_s-exec_rem_s_example = exec_div_s-exec_rem_s 31 machine 0xfffffff9 2 [] (omega arith) refl

-- A memory that is at its maximum does not grow, and one that is not gets its pages.
grow_past :
    exec_memory_grow access (record machine { stack = 2 ∷ []; mem0 = some [] })
    ≡ ok (record machine { pc = 1; stack = 0xffffffff ∷ []; mem0 = some [] })
unfolding exec_memory_grow pop
grow_past = refl
