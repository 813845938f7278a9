-- ===== src/Interpreter/Fills.antt =====
-- `table_fill` of src/interpreter/in_place_dt.c, whose offset is widened with its sign.
use silverfir.Prelude.{
  ℕ, zero, suc, ◌+◌, ◌-◌, ◌%◌, ◌^◌, ◌≤◌, ◌<◌, ◌≡◌, refl, true, false, ltb, leb, if◌then◌else◌, List,
  ◌∷◌, some, length, get_elem?, modify, arith, Bool-cases, inl, inr, get_elem-lt,
}
use silverfir.Result.{ok, err, fault, invalid}
use silverfir.Stream.Unchecked.{read_vu32_unchecked}
use silverfir.Interpreter.{Instance, Machine, pop, u_u32, widen, read_imm, write_at}
use silverfir.Interpreter.Memory.{cells}
use silverfir.Interpreter.Bulk.{pop_three, splice, fill_loop, exec_table_fill}
use silverfir.Interpreter.Bytes.{read_at-found}
use silverfir.Interpreter.Filling.{fill_loop-inside}

abbrev pub table_of : Instance → Machine → ℕ
table_of inst m = (read_vu32_unchecked inst.code m.pc).0

widen_small : (v : ℕ) → u_u32 v < 2 ^ 31 → widen v ≡ u_u32 v
unfolding widen
widen_small v h = let e : ltb (u_u32 v) (2 ^ 31) ≡ true = ground arith in rw e refl

widen_large : (v : ℕ) → 2 ^ 31 ≤ u_u32 v → widen v ≡ u_u32 v + 2 ^ 64 - 2 ^ 32
unfolding widen
widen_large v h = let e : ltb (u_u32 v) (2 ^ 31) ≡ false = ground arith in rw e refl

fill_loop-outside :
    (size : ℕ) (tdata : List ℕ) (at type : ℕ)
    → 0 < size
    → length tdata ≤ at
    → fill_loop size tdata at type ≡ fault
unfolding fill_loop write_at
fill_loop-outside zero tdata at type h past = absurd (omega arith)
fill_loop-outside (suc size) tdata at type h past =
    let e : leb (length tdata) at ≡ true = ground arith in rw e refl

module _ (inst : Instance) (m : Machine) (size type offset : ℕ) (rest : List ℕ) (t_addr : ℕ)
    (tdata : List ℕ) (linked : get_elem? inst.t_addrs (table_of inst m) ≡ some t_addr)
    (stored : get_elem? m.tables t_addr ≡ some tdata) (short : length tdata < 2 ^ 63) where
  -- For an offset below 2^31, `table_fill` fails exactly where the offset and the size exceed the
  -- table, and else puts the reference into that many elements from the offset on.
  pub exec_table_fill-inside :
      u_u32 offset < 2 ^ 31
      → exec_table_fill inst (record m { stack = size ∷ type ∷ offset ∷ rest }) ≡ (
          if ltb (length tdata) (u_u32 offset + u_u32 size)
          then err invalid
          else ok (record m {
            pc = (read_vu32_unchecked inst.code m.pc).1;
            stack = rest;
            tables =
                modify m.tables t_addr (λ _. splice tdata (u_u32 offset) (cells (u_u32 size) type));
          }))
  unfolding exec_table_fill pop_three pop read_imm write_at
  exec_table_fill-inside small =
      let at_addr = read_at-found inst.t_addrs (table_of inst m) t_addr linked in
      let at_table = read_at-found m.tables t_addr tdata stored in
      let below = get_elem-lt m.tables t_addr tdata stored in
      let there : leb (length m.tables) t_addr ≡ false = ground arith in
      let sum : (u_u32 offset + u_u32 size) % 2 ^ 64 ≡ u_u32 offset + u_u32 size = omega arith in
      elim (Bool-cases (ltb (length tdata) (u_u32 offset + u_u32 size))) [
        | inl e ↦ rw (at_addr, at_table, widen_small offset small, sum, e) refl
        | inr e ↦
            let fits : u_u32 offset + u_u32 size ≤ length tdata = ground arith in
            rw
              (
                at_addr,
                at_table,
                widen_small offset small,
                sum,
                e,
                fill_loop-inside (u_u32 size) tdata (u_u32 offset) type fits (omega arith),
                there,
              )
              refl
      ]

  -- For an offset of 2^31 or more, the offset less 2^32 is what the check adds to the size: where
  -- the sum is not negative and not above the length of the table, the check passes, and the first
  -- write of a size that is not 0 is outside the table.
  pub exec_table_fill-fault :
      2 ^ 31 ≤ u_u32 offset
      → 0 < u_u32 size
      → 2 ^ 32 ≤ u_u32 offset + u_u32 size
      → u_u32 offset + u_u32 size ≤ 2 ^ 32 + length tdata
      → exec_table_fill inst (record m { stack = size ∷ type ∷ offset ∷ rest }) ≡ fault
  unfolding exec_table_fill pop_three pop read_imm
  exec_table_fill-fault large some_size over under =
      let at_addr = read_at-found inst.t_addrs (table_of inst m) t_addr linked in
      let at_table = read_at-found m.tables t_addr tdata stored in
      let sum : (u_u32 offset + 2 ^ 64 - 2 ^ 32 + u_u32 size) % 2 ^ 64
          ≡ u_u32 offset + u_u32 size - 2 ^ 32 =
        omega arith in
      let passes : ltb (length tdata) (u_u32 offset + u_u32 size - 2 ^ 32) ≡ false = ground arith in
      rw
        (
          at_addr,
          at_table,
          widen_large offset large,
          sum,
          passes,
          fill_loop-outside (u_u32 size) tdata (u_u32 offset + 2 ^ 64 - 2 ^ 32) type some_size
              (omega arith),
        )
        refl
