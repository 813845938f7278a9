-- ===== src/Interpreter/Bulk.antt =====
-- The bulk instructions of src/interpreter/in_place_dt.c, on memories and tables.
use silverfir.Prelude.{
  ℕ, zero, suc, ◌+◌, ◌-◌, ◌%◌, ◌^◌, true, ltb, ◌||◌, ◌==◌, if◌then◌else◌, u32, List, ◌++◌, none,
  some, length, take, drop,
}
use silverfir.Result.{Result, ok, err, fault, general, invalid, ◌>>=◌}
use silverfir.Interpreter.{
  Instance, Machine, pop, push, u_u32, widen, read_imm, skip, read_at, write_at,
}
use silverfir.Interpreter.Memory.{cells}

-- `size`, `src` and `dst`, or what stands in their place, off the stack.
unfoldable pub pop_three : Machine → Result (ℕ × ℕ × ℕ × Machine)
pop_three m = do (size, m1) ← pop m; (src, m2) ← pop m1; (dst, m3) ← pop m2; ok (size, src, dst, m3)

-- `memcpy` or `memmove` of `ys` to `dst`, where they fit.
unfoldable pub splice {ℓ} : {A : Type ℓ} → List A → ℕ → List A → List A
splice xs dst ys = take dst xs ++ (ys ++ drop (dst + length ys) xs)

unfoldable pub exec_memory_init : Instance → Machine → Result Machine
exec_memory_init inst m = do
  let (data_idx, m0) = read_imm inst m
  d ← read_at inst.mod'.segments data_idx
  (size_v, src_v, dst_v, m1) ← pop_three (skip 1 m0)
  let size = u_u32 size_v
  let src = u_u32 src_v
  let dst = u_u32 dst_v
  elim m1.mem0 [
    | none ↦ fault
    | some bytes ↦
        if ltb (length d.bytes) (src + size) || ltb (length bytes) (dst + size)
        then err general
        else if size == 0
        then ok m1
        else do
          dropped ← read_at m1.dropped_data data_idx
          if dropped
              then err general
              else ok (record m1 { mem0 = some (splice bytes dst (take size (drop src d.bytes))) })
  ]

unfoldable pub exec_data_drop : Instance → Machine → Result Machine
exec_data_drop inst m = do
  let (data_idx, m1) = read_imm inst m
  dropped_data ← write_at m1.dropped_data data_idx true
  ok (record m1 { dropped_data = dropped_data })

unfoldable pub exec_memory_copy : Machine → Result Machine
exec_memory_copy m = do
  (size_v, src_v, dst_v, m1) ← pop_three (skip 2 m)
  let size = u_u32 size_v
  let src = u_u32 src_v
  let dst = u_u32 dst_v
  elim m1.mem0 [
    | none ↦ fault
    | some bytes ↦
        if ltb (length bytes) (src + size) || ltb (length bytes) (dst + size)
        then err general
        else ok (
            if size == 0
            then m1
            else record m1 { mem0 = some (splice bytes dst (take size (drop src bytes))) })
  ]

unfoldable pub exec_memory_fill : Machine → Result Machine
exec_memory_fill m = do
  (size_v, val, dst_v, m1) ← pop_three (skip 1 m)
  let size = u_u32 size_v
  let dst = u_u32 dst_v
  elim m1.mem0 [
    | none ↦ fault
    | some bytes ↦
        if ltb (length bytes) (dst + size)
        then err general
        else ok (
            if size == 0
            then m1
            else record m1 { mem0 = some (splice bytes dst (cells size (val % 256))) })
  ]

unfoldable pub exec_table_size : Instance → Machine → Result Machine
exec_table_size inst m = do
  let (table_idx, m1) = read_imm inst m
  t_addr ← read_at inst.t_addrs table_idx
  tdata ← read_at m1.tables t_addr
  ok (push (u32 (length tdata)) m1)

-- The allocation that a larger table needs succeeds.
unfoldable pub exec_table_grow : Instance → Machine → Result Machine
exec_table_grow inst m = do
  let (table_idx, m0) = read_imm inst m
  (size_v, m1) ← pop m0
  (type, m2) ← pop m1
  t_addr ← read_at inst.t_addrs table_idx
  tdata ← read_at m2.tables t_addr
  max ← read_at inst.table_max t_addr
  if ltb max (length tdata + u_u32 size_v) then ok (push (2 ^ 32 - 1) m2) else do
    tables ← write_at m2.tables t_addr (tdata ++ cells (u_u32 size_v) type)
    ok (push (u32 (length tdata)) (record m2 { tables = tables }))

-- The tables may be one.
unfoldable pub exec_table_copy : Instance → Machine → Result Machine
exec_table_copy inst m = do
  let (table_idx_dst, m0) = read_imm inst m
  let (table_idx_src, m1) = read_imm inst m0
  t_addr_dst ← read_at inst.t_addrs table_idx_dst
  t_addr_src ← read_at inst.t_addrs table_idx_src
  (size_v, src_v, dst_v, m2) ← pop_three m1
  let size = u_u32 size_v
  let src = u_u32 src_v
  let dst = u_u32 dst_v
  from ← read_at m2.tables t_addr_src
  to ← read_at m2.tables t_addr_dst
  if ltb (length from) (src + size) || ltb (length to) (dst + size) then err general else do
    tables ←
        (if size == 0
          then ok m2.tables
          else write_at m2.tables t_addr_dst (splice to dst (take size (drop src from))))
    ok (record m2 { tables = tables })

-- The loop of `table_fill`, with the sum `offset + i` of two `u64`.
unfoldable pub fill_loop : ℕ → List ℕ → ℕ → ℕ → Result (List ℕ)
fill_loop zero tdata at type = ok tdata
fill_loop (suc size) tdata at type = do
  tdata' ← write_at tdata at type
  fill_loop size tdata' ((at + 1) % 2 ^ 64) type

-- `offset` is popped as an `i32`, and the sum of the check is a `u64`.
unfoldable pub exec_table_fill : Instance → Machine → Result Machine
exec_table_fill inst m = do
  let (table_idx, m0) = read_imm inst m
  t_addr ← read_at inst.t_addrs table_idx
  (size_v, type, offset_v, m1) ← pop_three m0
  tdata ← read_at m1.tables t_addr
  let size = u_u32 size_v
  let offset = widen offset_v
  if ltb (length tdata) ((offset + size) % 2 ^ 64) then err invalid else do
    tdata' ← fill_loop size tdata offset type
    tables ← write_at m1.tables t_addr tdata'
    ok (record m1 { tables = tables })
