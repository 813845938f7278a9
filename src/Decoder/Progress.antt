-- ===== src/Decoder/Progress.antt =====
-- The decoder with any table of callbacks that keeps a contract: it keeps it too, and each turn
-- takes a byte at least.
pub mod Operand
pub mod Control
pub mod Loop
use silverfir.Prelude.{
  ℕ, suc, ◌+◌, Bool, true, false, ◌≡◌, refl, arith, length, ◌==◌, ◌!=◌, ◌||◌, u32, pos,
  if◌then◌else◌, ◌∷◌, [],
}
use silverfir.Result.{Result}
use silverfir.Result.Post.{Post, returns, throws, faults, Post-if, ◌⟫◌, weaken}
use silverfir.Format.{TypeId}
use silverfir.Stream.{Stream, IsValid}
use silverfir.Stream.Moves.{
  IsAhead, IsFrom, IsFrom-trans, IsFrom-refl, IsAhead-trans, IsAhead-IsFrom, read_vu32-Post,
  read_vu7-Post,
}
use silverfir.Decoder.Callbacks.{Callbacks}
use silverfir.Decoder.Contract.{Keeps}
use silverfir.Decoder.Immediate.{no_imm, u32_imm, u32_u32_imm, reserved_imm}
use silverfir.Decoder.Numeric.{decode_numeric}
use silverfir.Decoder.Prefixed.{
  memory_init_imm, memory_copy_imm, decode_table_fc, decode_fc_op, decode_fc, decode_fd,
}

abbrev pub Onward : {S : Type 0} → (S → Type 0) → Stream → Stream × S → Type 0
Onward J code (pc, s) = IsFrom code pc × J s

module _ {S : Type 0} {J : S → Type 0} {F : Type 0} where
  pub no_imm-Onward :
      (f : S → Result S) (code : Stream) (s : S)
      → IsValid code
      → Post J F (f s)
      → Post (Onward J code) F (no_imm f code s)
  unfolding no_imm
  no_imm-Onward f code s v h = h ⟫ λ s' j. returns (IsFrom-refl code v, j)

  pub u32_imm-Onward :
      (f : ℕ → S → Result S) (code : Stream) (s : S)
      → ((u : ℕ) → Post J F (f u s))
      → Post (Onward J code) F (u32_imm f code s)
  unfolding u32_imm
  u32_imm-Onward f code s h =
      read_vu32-Post code ⟫ λ (u, pc) a. h u ⟫ λ s' j. returns (IsAhead-IsFrom a, j)

  pub u32_u32_imm-Onward :
      (f : ℕ → ℕ → S → Result S) (code : Stream) (s : S)
      → ((u v : ℕ) → Post J F (f u v s))
      → Post (Onward J code) F (u32_u32_imm f code s)
  unfolding u32_u32_imm
  u32_u32_imm-Onward f code s h = read_vu32-Post code ⟫ λ (u, pc1) a.
      read_vu32-Post pc1 ⟫ λ (v, pc2) b.
      h u v ⟫ λ s' j. returns (IsAhead-IsFrom (IsAhead-trans a b), j)

  pub reserved_imm-Onward :
      (f : S → Result S) (code : Stream) (s : S)
      → Post J F (f s)
      → Post (Onward J code) F (reserved_imm f code s)
  unfolding reserved_imm
  reserved_imm-Onward f code s h = read_vu7-Post code ⟫ λ (b, pc) a.
      Post-if (b != 0) _ _ (λ _. throws) (λ _. h ⟫ λ s' j. returns (IsAhead-IsFrom a, j))

module _ {S : Type 0} {I J : S → Type 0} {B : Stream → Type 0} {F : Type 0} (cb : Callbacks S)
    (k : Keeps I J B F cb) where
  pub decode_numeric-Onward :
      (opcode : ℕ) (code : Stream) (s : S)
      → IsValid code
      → I s
      → Post (Onward J code) F (decode_numeric cb opcode code s)
  unfolding decode_numeric
  decode_numeric-Onward opcode code s v i =
      search
        (
          Post-if, no_imm-Onward, throws, v, i, k.on_itestop, k.on_iunop, k.on_irelop, k.on_ibinop,
          k.on_funop, k.on_frelop, k.on_fbinop, k.on_wrapop, k.on_truncop, k.on_convertop,
          k.on_rankop, k.on_reinterpretop, k.on_extendop,
        )
        depth 20

  pub decode_table_fc-Onward :
      (opcode : ℕ) (code : Stream) (s : S)
      → I s
      → Post (Onward J code) F (decode_table_fc cb opcode code s)
  unfolding decode_table_fc
  decode_table_fc-Onward opcode code s i =
      search
        (
          Post-if, u32_imm-Onward, u32_u32_imm-Onward, throws, i, k.on_table_init, k.on_elem_drop,
          k.on_table_copy, k.on_table_grow, k.on_table_size, k.on_table_fill,
        )
        depth 20

  memory_init_imm-Onward :
      (code : Stream) (s : S) → I s → Post (Onward J code) F (memory_init_imm cb code s)
  unfolding memory_init_imm
  memory_init_imm-Onward code s i = read_vu32-Post code ⟫ λ (u, pc1) a.
      read_vu7-Post pc1 ⟫ λ (b, pc2) a'.
      Post-if (b != 0) _ _ (λ _. throws)
        (λ _.
          k.on_memory_init code u s i ⟫ λ s' j. returns (IsAhead-IsFrom (IsAhead-trans a a'), j))

  memory_copy_imm-Onward :
      (opcode : ℕ) (code : Stream) (s : S)
      → I s
      → Post (Onward J code) F (memory_copy_imm cb opcode code s)
  unfolding memory_copy_imm
  memory_copy_imm-Onward opcode code s i = read_vu7-Post code ⟫ λ (b, pc1) a.
      read_vu7-Post pc1 ⟫ λ (c, pc2) a'.
      Post-if (c != 0 || b != 0) _ _ (λ _. throws)
        (λ _. k.on_memory_copy opcode code s i ⟫ λ s' j.
          returns (IsAhead-IsFrom (IsAhead-trans a a'), j))

  decode_fc_op-Onward :
      (opcode : ℕ) (code : Stream) (s : S)
      → IsValid code
      → I s
      → Post (Onward J code) F (decode_fc_op cb opcode code s)
  unfolding decode_fc_op
  decode_fc_op-Onward opcode code s v i =
      search
        (
          Post-if, no_imm-Onward, u32_imm-Onward, reserved_imm-Onward, memory_init_imm-Onward,
          memory_copy_imm-Onward, decode_table_fc-Onward, v, i, k.on_trunc_sat, k.on_memory_fill,
          k.on_data_drop,
        )
        depth 20

  -- What a reader does behind another.
  pub Onward-behind :
      {code pc : Stream} {r : Result (Stream × S)}
      → IsAhead code pc
      → Post (Onward J pc) F r
      → Post (Onward J code) F r
  Onward-behind a h = weaken (λ x o. (IsFrom-trans (IsAhead-IsFrom a) o.0, o.1)) h

  pub decode_fc-Onward :
      (code : Stream) (s : S) → I s → Post (Onward J code) F (decode_fc cb code s)
  unfolding decode_fc
  decode_fc-Onward code s i = read_vu32-Post code ⟫ λ (op, pc) a.
      k.on_opcode_fc op pc s i ⟫ λ s' i'.
      Onward-behind a (decode_fc_op-Onward op pc s' (rw (← a.same) at a.within) i')

  pub decode_fd-Onward :
      (code : Stream) (s : S) → I s → Post (Onward J code) F (decode_fd cb code s)
  unfolding decode_fd
  decode_fd-Onward code s i =
      read_vu32-Post code ⟫ λ (op, pc) a. k.on_opcode_fd op pc s i ⟫ λ s' j. throws
