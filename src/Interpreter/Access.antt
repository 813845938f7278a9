-- ===== src/Interpreter/Access.antt =====
-- The loads and stores of src/interpreter/in_place_dt.c and the bytes of the memory.
use silverfir.Prelude.{
  ℕ, ◌+◌, ◌*◌, ◌%◌, ◌^◌, ◌≤◌, ◌<◌, ◌≡◌, refl, ◌⊎◌, Bool, true, false, ltb, if◌then◌else◌, List, ◌∷◌,
  some, length, get_or, drop, arith, Bool-cases, inl, inr,
}
use silverfir.Result.{ok, err, general}
use silverfir.Stream.Unchecked.{read_vu32_unchecked}
use silverfir.Interpreter.{Instance, Machine, pop, u_u32, read_imm}
use silverfir.Interpreter.Memory.{extend, exec_load, exec_store}
use silverfir.Interpreter.Bytes.{
  little_endian, mem_read-inside, put, mem_write-inside, length-put, little_endian-put, get_or-put,
}

-- The immediate offset of an access and the position behind it.
abbrev pub offset_of : Instance → Machine → ℕ
offset_of inst m = (read_vu32_unchecked inst.code (m.pc + 1)).0

abbrev pub behind : Instance → Machine → ℕ
behind inst m = (read_vu32_unchecked inst.code (m.pc + 1)).1

module _ (inst : Instance) (m : Machine) (n v : ℕ) (rest : List ℕ) (bytes : List ℕ) where
  -- With an address on the stack and a memory, a load of n bytes fails exactly where the address as a
  -- 32-bit number, the offset and n add up to more than the memory has; else it puts the
  -- little-endian number of these bytes, extended, in the place of the address. It never reads
  -- outside the memory.
  pub exec_load-inside :
      (w : ℕ) (signed : Bool)
      → exec_load w signed n inst (record m { stack = v ∷ rest; mem0 = some bytes }) ≡ (
          if ltb (length bytes) (u_u32 v + offset_of inst m + n)
          then err general
          else ok (record m {
            pc = behind inst m;
            mem0 = some bytes;
            stack =
                extend w signed n (little_endian n (drop (u_u32 v + offset_of inst m) bytes))
                ∷ rest;
          }))
  unfolding exec_load pop read_imm
  exec_load-inside w signed =
      elim (Bool-cases (ltb (length bytes) (u_u32 v + offset_of inst m + n))) [
        | inl e ↦ rw e refl
        | inr e ↦ rw (e, mem_read-inside n bytes (u_u32 v + offset_of inst m) (ground arith)) refl
      ]

  -- Such a store fails exactly where the address, the offset and n exceed the memory.
  pub exec_store-traps :
      (val : ℕ)
      → length bytes < u_u32 v + offset_of inst m + n
      → exec_store n inst (record m { stack = val ∷ v ∷ rest; mem0 = some bytes }) ≡ err general
  unfolding exec_store pop read_imm
  exec_store-traps val h =
      let e : ltb (length bytes) (u_u32 v + offset_of inst m + n) ≡ true = ground arith in rw e refl

  exec_store-put :
      (val : ℕ)
      → u_u32 v + offset_of inst m + n ≤ length bytes
      → exec_store n inst (record m { stack = val ∷ v ∷ rest; mem0 = some bytes })
        ≡ ok (record m {
          pc = behind inst m;
          stack = rest;
          mem0 = some (put n bytes (u_u32 v + offset_of inst m) val);
        })
  unfolding exec_store pop read_imm
  exec_store-put val h =
      let e : ltb (length bytes) (u_u32 v + offset_of inst m + n) ≡ false = ground arith in
      rw (e, mem_write-inside n bytes (u_u32 v + offset_of inst m) val h) refl

  -- Where the access fits, a store of n bytes succeeds, takes its two operands off the stack, leaves
  -- the size of the memory and every byte outside the access, and leaves the low 8n bits of the
  -- value at the address as a little-endian number.
  pub exec_store-inside :
      (val i : ℕ)
      → u_u32 v + offset_of inst m + n ≤ length bytes
      → (i < u_u32 v + offset_of inst m) ⊎ (u_u32 v + offset_of inst m + n ≤ i)
      → (bytes' : List ℕ) × (exec_store n inst
            (record m { stack = val ∷ v ∷ rest; mem0 = some bytes })
          ≡ ok (record m { pc = behind inst m; stack = rest; mem0 = some bytes' }))
        × (length bytes' ≡ length bytes)
        × (get_or bytes' i 0 ≡ get_or bytes i 0)
        × (little_endian n (drop (u_u32 v + offset_of inst m) bytes') ≡ val % 2 ^ (8 * n))
  exec_store-inside val i h out = (
    put n bytes (u_u32 v + offset_of inst m) val,
    exec_store-put val h,
    length-put n bytes (u_u32 v + offset_of inst m) val,
    get_or-put n bytes (u_u32 v + offset_of inst m) val i out,
    little_endian-put n bytes (u_u32 v + offset_of inst m) val h,
  )

module _ (inst : Instance) (m : Machine) (n v : ℕ) (rest : List ℕ) (bytes : List ℕ) where
  -- Where the access fits, an unsigned load with the offset and the address of a store that has run
  -- gives the low 8n bits of the value that was stored.
  pub exec_load-exec_store :
      (w val : ℕ) (m' : Machine)
      → u_u32 v + offset_of inst m + n ≤ length bytes
      → exec_store n inst (record m { stack = val ∷ v ∷ rest; mem0 = some bytes }) ≡ ok m'
      → exec_load w false n inst (record m' { pc = m.pc; stack = v ∷ m'.stack })
        ≡ ok (record m' { stack = val % 2 ^ (8 * n) ∷ rest })
  unfolding extend
  exec_load-exec_store w val m' h e =
      let p = u_u32 v + offset_of inst m in
      let after = record m { pc = behind inst m; stack = rest; mem0 = some (put n bytes p val) } in
      let put_there = exec_store-put inst m n v rest bytes val h in
      let stored : m' ≡ after = cc in
      let e' : ltb (length (put n bytes p val)) (p + n) ≡ false =
        (let l = length-put n bytes p val in ground arith) in
      let loads = exec_load-inside inst m n v rest (put n bytes p val) w false in
      rw stored (rw (e', little_endian-put n bytes p val h) at loads)
