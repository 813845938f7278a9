-- ===== src/Decoder/Progress/Operand.antt =====
-- The contract through the variable, memory, constant and reference instructions.
use silverfir.Prelude.{ℕ, not}
use silverfir.Result.{Result}
use silverfir.Result.Post.{Post, returns, throws, Post-if, ◌⟫◌}
use silverfir.Format.{is_ref}
use silverfir.Stream.{Stream, IsValid}
use silverfir.Stream.Moves.{
  Reads, IsAhead-trans, IsAhead-IsFrom, read_vu32-Post, read_vu7-Post, read_vi7-Post,
  read_vi32-Post, read_vi64-Post, read_f32-Post, read_f64-Post,
}
use silverfir.Decoder.Callbacks.{Callbacks}
use silverfir.Decoder.Contract.{Keeps}
use silverfir.Decoder.Operand.{
  ref_null_imm, decode_reference, const_imm, decode_const, load_store_imm, decode_memory,
  decode_variable,
}
use silverfir.Decoder.Progress.{
  Onward, no_imm-Onward, u32_imm-Onward, reserved_imm-Onward, decode_numeric-Onward,
}

module _ {S : Type 0} {I J : S → Type 0} {B : Stream → Type 0} {F : Type 0} (cb : Callbacks S)
    (k : Keeps I J B F cb) where
  ref_null_imm-Onward :
      (opcode : ℕ) (code : Stream) (s : S)
      → I s
      → Post (Onward J code) F (ref_null_imm cb opcode code s)
  unfolding ref_null_imm
  ref_null_imm-Onward opcode code s i = read_vi7-Post code ⟫ λ (t, pc) a.
      Post-if (not (is_ref t)) _ _ (λ _. throws)
        (λ _. k.on_ref_null opcode code t s i ⟫ λ s' j. returns (IsAhead-IsFrom a, j))

  decode_reference-Onward :
      (opcode : ℕ) (code : Stream) (s : S)
      → IsValid code
      → I s
      → Post (Onward J code) F (decode_reference cb opcode code s)
  unfolding decode_reference
  decode_reference-Onward opcode code s v i =
      search
        (
          Post-if,
          ref_null_imm-Onward,
          no_imm-Onward,
          u32_imm-Onward,
          k.on_ref_is_null,
          k.on_ref_func,
          decode_numeric-Onward cb k,
          v,
          i,
        )
        depth 20

  const_imm-Onward :
      (read : Stream → Result (ℕ × Stream)) (f : ℕ → S → Result S) (code : Stream) (s : S)
      → Post (Reads code) F (read code)
      → ((u : ℕ) → Post J F (f u s))
      → Post (Onward J code) F (const_imm cb read f code s)
  unfolding const_imm
  const_imm-Onward read f code s r h = r ⟫ λ (u, pc) a. h u ⟫ λ s' j. returns (IsAhead-IsFrom a, j)

  decode_const-Onward :
      (opcode : ℕ) (code : Stream) (s : S)
      → IsValid code
      → I s
      → Post (Onward J code) F (decode_const cb opcode code s)
  unfolding decode_const
  decode_const-Onward opcode code s v i =
      search
        (
          Post-if, const_imm-Onward, read_vi32-Post, read_vi64-Post, read_f32-Post, read_f64-Post,
          k.on_i32_const, k.on_i64_const, k.on_f32_const, k.on_f64_const, decode_reference-Onward,
          v, i,
        )
        depth 20

  load_store_imm-Onward :
      (opcode : ℕ) (code : Stream) (s : S)
      → I s
      → Post (Onward J code) F (load_store_imm cb opcode code s)
  unfolding load_store_imm
  load_store_imm-Onward opcode code s i = read_vu7-Post code ⟫ λ (align, pc1) a.
      read_vu32-Post pc1 ⟫ λ (offset, pc2) b.
      k.on_memory_load_store opcode code align offset s i ⟫ λ s' j.
      returns (IsAhead-IsFrom (IsAhead-trans a b), j)

  decode_memory-Onward :
      (opcode : ℕ) (code : Stream) (s : S)
      → IsValid code
      → I s
      → Post (Onward J code) F (decode_memory cb opcode code s)
  unfolding decode_memory
  decode_memory-Onward opcode code s v i =
      search
        (
          Post-if, load_store_imm-Onward, reserved_imm-Onward, k.on_memory_size, k.on_memory_grow,
          decode_const-Onward, v, i,
        )
        depth 20

  pub decode_variable-Onward :
      (opcode : ℕ) (code : Stream) (s : S)
      → IsValid code
      → I s
      → Post (Onward J code) F (decode_variable cb opcode code s)
  unfolding decode_variable
  decode_variable-Onward opcode code s v i =
      search
        (
          Post-if, u32_imm-Onward, k.on_local_get, k.on_local_set, k.on_local_tee, k.on_global_get,
          k.on_global_set, k.on_table_get, k.on_table_set, decode_memory-Onward, v, i,
        )
        depth 20
