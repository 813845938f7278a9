-- ===== src/Examples/Machines.antt =====
-- A small instance and a machine for src/interpreter/in_place_dt.c.
use silverfir.Prelude.{ℕ, false, List, [], ◌∷◌, none}
use silverfir.Module.{Segment}
use silverfir.Interpreter.{Instance, Machine}
use silverfir.Examples.Data.{empty_module, block_slot}

abbrev pub segment : Segment
segment = record { is_active = false; memidx = 0; offset_expr = []; bytes = 7 ∷ 8 ∷ [] }

-- Code with one table and one segment, and one record of a jump table.
abbrev pub instance_of : List ℕ → Instance
instance_of code = record {
  code = code;
  jt = record block_slot { target_offset = 6; next_idx = 0xffff } ∷ [];
  mod' = record empty_module { segments = segment ∷ [] };
  g_addrs = [];
  t_addrs = 0 ∷ [];
  f_addrs = 64 ∷ 65 ∷ [];
  mem_max = 1;
  table_max = 4 ∷ [];
}

abbrev pub machine : Machine
machine = record {
  pc = 0;
  next_jt_idx = 0;
  stack = [];
  locals = [];
  globals = [];
  mem0 = none;
  tables = (5 ∷ 6 ∷ 7 ∷ []) ∷ [];
  dropped_data = false ∷ [];
  dropped_elements = false ∷ [];
}
