-- ===== src/Interpreter/Memory.antt =====
-- The loads, stores and constants of src/interpreter/in_place_dt.c, on the reads and writes of
-- src/utils/mem_util.h. The host is little-endian, as the reads through a cast pointer want.
use silverfir.Prelude.{
  ℕ, zero, suc, ◌+◌, ◌-◌, ◌*◌, ◌/◌, ◌%◌, ◌^◌, Bool, ltb, leb, ◌&&◌, if◌then◌else◌, u32, List, [],
  ◌∷◌, ◌++◌, none, some, length, take,
}
use silverfir.Result.{Result, ok, err, fault, general, ◌>>=◌}
use silverfir.Stream.Unchecked.{read_vi32_unchecked}
use silverfir.Interpreter.{Instance, Machine, pop, push, u_u32, read_imm, skip, read_at, write_at}

-- `mem_read_*` and `mem_write_*` of a type of `n` bytes.
unfoldable pub mem_read : ℕ → List ℕ → ℕ → Result ℕ
mem_read zero bytes p = ok 0
mem_read (suc n) bytes p = do
  b ← read_at bytes p
  rest ← mem_read n bytes (suc p)
  ok (b + 256 * rest)

unfoldable pub mem_write : ℕ → List ℕ → ℕ → ℕ → Result (List ℕ)
mem_write zero bytes p val = ok bytes
mem_write (suc n) bytes p val = do
  bytes' ← write_at bytes p (val % 256)
  mem_write n bytes' (suc p) (val / 256)

-- A value of `n` bytes in a member of `w` bits, with its sign copied where the type is signed.
unfoldable pub extend : ℕ → Bool → ℕ → ℕ → ℕ
extend w signed n val =
    if signed && leb (2 ^ (8 * n - 1)) val then val + 2 ^ w - 2 ^ (8 * n) else val

-- `MEM_LOAD`, of `n` bytes into a member of `w` bits.
unfoldable pub exec_load : ℕ → Bool → ℕ → Instance → Machine → Result Machine
exec_load w signed n inst m = do
  let (offset, m1) = read_imm inst (skip 1 m)
  (v, m2) ← pop m1
  let mem_idx = u_u32 v + offset
  elim m2.mem0 [
    | none ↦ fault
    | some bytes ↦
        if ltb (length bytes) (mem_idx + n)
        then err general
        else do val ← mem_read n bytes mem_idx; ok (push (extend w signed n val) m2)
  ]

-- `MEM_STORE`, of the low `n` bytes.
unfoldable pub exec_store : ℕ → Instance → Machine → Result Machine
exec_store n inst m = do
  let (offset, m1) = read_imm inst (skip 1 m)
  (val, m2) ← pop m1
  (v, m3) ← pop m2
  let mem_idx = u_u32 v + offset
  elim m3.mem0 [
    | none ↦ fault
    | some bytes ↦
        if ltb (length bytes) (mem_idx + n)
        then err general
        else do bytes' ← mem_write n bytes mem_idx val; ok (record m3 { mem0 = some bytes' })
  ]

abbrev pub wasm_page_size : ℕ
wasm_page_size = 65536

unfoldable pub exec_memory_size : Machine → Result Machine
exec_memory_size m = elim m.mem0 [
  | none ↦ fault
  | some bytes ↦ ok (push (u32 (length bytes / wasm_page_size)) (skip 1 m))
]

-- `n` equal elements, behind the others of a vector that grows.
unfoldable pub cells {ℓ} : {A : Type ℓ} → ℕ → A → List A
cells zero x = []
cells (suc n) x = x ∷ cells n x

-- `vec_resize`, where the allocation succeeds.
unfoldable pub resize_bytes : List ℕ → ℕ → List ℕ
resize_bytes xs new_size = take new_size xs ++ cells (new_size - length xs) 0

unfoldable pub exec_memory_grow : Instance → Machine → Result Machine
exec_memory_grow inst m = elim m.mem0 [
  | none ↦ fault
  | some bytes ↦ do
    (v, m1) ← pop (skip 1 m)
    let sz = length bytes / wasm_page_size
    let n_pages = u_u32 v
    let resized = resize_bytes bytes ((sz + n_pages) * wasm_page_size)
    ok (
        if leb (sz + n_pages) inst.mem_max
        then push (u32 sz) (record m1 { mem0 = some resized })
        else push (2 ^ 32 - 1) m1)
]

unfoldable pub exec_i32_const : Instance → Machine → Machine
exec_i32_const inst m =
    let (v, pc) = read_vi32_unchecked inst.code m.pc in push v (record m { pc = pc })

-- `f32_const` and `f64_const`, on the bits.
unfoldable pub exec_float_const : ℕ → Instance → Machine → Result Machine
exec_float_const n inst m = do v ← mem_read n inst.code m.pc; ok (push v (skip n m))
