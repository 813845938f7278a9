-- ===== src/Interpreter.antt =====
-- The state of a call in src/interpreter/in_place_dt.c, the interpreter that runs a body in place.
-- The instructions are in the child modules; a handler stands behind its opcode, with `pc` there.
pub mod Control
pub mod Variable
pub mod Memory
pub mod Bulk
pub mod Branching
pub mod Bytes
pub mod Access
pub mod Filling
pub mod Moves
pub mod Fills
pub mod Numeric
pub mod Constant
pub mod Segments
use silverfir.Prelude.{
  ℕ, ◌+◌, ◌-◌, ◌%◌, ◌^◌, Bool, ltb, if◌then◌else◌, List, [], ◌∷◌, Option, none, some, leb, length,
  get_elem?, modify,
}
use silverfir.Result.{Result, ok, err, fault, ◌>>=◌}
use silverfir.Module.{JumpTable, Module}
use silverfir.Stream.Unchecked.{read_vu32_unchecked}

-- What does not change in a call: the code, its jump table, the module, and the linked addresses.
-- Addresses are indices into the store's vectors; `mem_max` and `table_max` are the limits.
pub record Instance : Type 0 where
  pub code : List ℕ
  pub jt : List JumpTable
  pub mod' : Module
  pub g_addrs : List ℕ
  pub t_addrs : List ℕ
  pub f_addrs : List ℕ
  pub mem_max : ℕ
  pub table_max : List ℕ

-- A value is the word of the union `value_u`; `stack` has its top first. `mem0` is the vector behind
-- `pmem0`, or none where that is null.
pub record Machine : Type 0 where
  pub pc : ℕ
  pub next_jt_idx : ℕ
  pub stack : List ℕ
  pub locals : List ℕ
  pub globals : List ℕ
  pub mem0 : Option (List ℕ)
  pub tables : List (List ℕ)
  pub dropped_data : List Bool
  pub dropped_elements : List Bool

-- `pop()` and `push()`. Below the base of the stack there is nothing to read.
unfoldable pub pop : Machine → Result (ℕ × Machine)
pop m = elim m.stack [ [] ↦ fault | v ∷ rest ↦ ok (v, record m { stack = rest }) ]

abbrev pub push : ℕ → Machine → Machine
push v m = record m { stack = v ∷ m.stack }

-- A read and a write through a pointer into a vector.
unfoldable pub read_at {ℓ} : {A : Type ℓ} → List A → ℕ → Result A
read_at xs i = elim (get_elem? xs i) [ none ↦ fault | some x ↦ ok x ]

unfoldable pub write_at {ℓ} : {A : Type ℓ} → List A → ℕ → A → Result (List A)
write_at xs i x = if leb (length xs) i then fault else ok (modify xs i (λ _. x))

-- The members of the union: `u_u32` is the low half, also behind `u_i32`.
abbrev pub u_u32 : ℕ → ℕ
u_u32 v = v % 2 ^ 32

-- `(u64)` of an `i32`, which copies the sign.
unfoldable pub widen : ℕ → ℕ
widen v = if ltb (u_u32 v) (2 ^ 31) then u_u32 v else u_u32 v + 2 ^ 64 - 2 ^ 32

-- `stream_read_vu32_unchecked(target, pc)` and `stream_seek_unchecked(pc, n)`.
unfoldable pub read_imm : Instance → Machine → ℕ × Machine
read_imm inst m = let (v, pc) = read_vu32_unchecked inst.code m.pc in (v, record m { pc = pc })

abbrev pub skip : ℕ → Machine → Machine
skip n m = record m { pc = m.pc + n }
