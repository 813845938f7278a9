-- ===== src/Decoder/Progress/Control.antt =====
-- The contract through the control instructions, and through the whole switch.
use silverfir.Prelude.{ℕ, ◌+◌, not, true, one_of, [], ◌∷◌, ◌≡◌, ◌==◌, ◌!=◌, u32}
use silverfir.Result.{ok, fault}
use silverfir.Opcode.{op_block, op_loop, op_if, op_br_table}
use silverfir.Result.Post.{Post, returns, throws, Post-if, Post-of, Post-with, weaken_fault, ◌⟫◌}
use silverfir.Format.{is_value_type}
use silverfir.Stream.{Stream, IsValid, read_vi7}
use silverfir.Stream.Moves.{
  IsFrom-trans, IsAhead-trans, IsAhead-IsFrom, read_u8-Post, read_vu32-Post, read_vi7-Post,
  seek-Post, Reads,
}
use silverfir.Module.{Module}
use silverfir.Decoder.Callbacks.{Callbacks}
use silverfir.Decoder.Contract.{Keeps}
use silverfir.Decoder.BlockType.{block_func_type, get_blocktype}
use silverfir.Decoder.Control.{
  block_imm, br_imm, br_table_imm, select_t_imm, decode_parametric, decode_branch, decode_op,
}
use silverfir.Decoder.Progress.{
  Onward, no_imm-Onward, u32_imm-Onward, u32_u32_imm-Onward, decode_fc-Onward, decode_fd-Onward,
}
use silverfir.Decoder.Progress.Operand.{decode_variable-Onward}

-- An immediate at `code` that the switch cannot take: a table of labels for which `B` holds, or a
-- block type for which the lookup leaves its array.
pub data IsBadImm (B : Stream → Type 0) (mod' : Module) (opcode : ℕ) (code : Stream) : Type 0 where
  bad_table : (opcode == op_br_table) ≡ true → B code → IsBadImm B mod' opcode code
  bad_type :
      {b : ℕ} {pc : Stream}
      → one_of opcode (op_block ∷ op_loop ∷ op_if ∷ []) ≡ true
      → read_vi7 code ≡ ok (b, pc)
      → block_func_type b mod' ≡ fault
      → IsBadImm B mod' opcode code

module _ {S : Type 0} {I J : S → Type 0} {B : Stream → Type 0} {F : Type 0} (cb : Callbacks S)
    (k : Keeps I J B F cb) (mod' : Module) where
  get_blocktype-Post :
      (st : Stream)
      → ((b : ℕ) (pc : Stream) → read_vi7 st ≡ ok (b, pc) → block_func_type b mod' ≡ fault → F)
      → Post (Reads st) F (get_blocktype st mod')
  unfolding get_blocktype
  get_blocktype-Post st bad = Post-with (read_vi7 st) (read_vi7-Post st) ⟫ λ (b, st') (a, e).
      Post-of {P = λ _. Unit} (block_func_type b mod') (λ _ _. tt) (bad b st' e) ⟫ λ ft _. returns a

  block_imm-Onward :
      (opcode : ℕ) (code : Stream) (s : S)
      → (IsBadImm B mod' opcode code → F)
      → one_of opcode (op_block ∷ op_loop ∷ op_if ∷ []) ≡ true
      → I s
      → Post (Onward J code) F (block_imm cb mod' opcode code s)
  unfolding block_imm
  block_imm-Onward opcode code s bad h i =
      get_blocktype-Post code (λ b pc e f. bad (bad_type h e f)) ⟫ λ (type, pc) a.
      k.on_block opcode code type s i ⟫ λ s' j. returns (IsAhead-IsFrom a, j)

  br_imm-Onward :
      (opcode : ℕ) (code : Stream) (s : S)
      → I s
      → Post (Onward J code) F (br_imm cb mod' opcode code s)
  unfolding br_imm
  br_imm-Onward opcode code s i = read_u8-Post code ⟫ λ (lth, pc) a.
      k.on_br_or_if opcode code lth s i ⟫ λ s' j. returns (IsAhead-IsFrom a, j)

  br_table_imm-Onward :
      (opcode : ℕ) (code : Stream) (s : S)
      → (IsBadImm B mod' opcode code → F)
      → (opcode == op_br_table) ≡ true
      → I s
      → Post (Onward J code) F (br_table_imm cb mod' opcode code s)
  unfolding br_table_imm
  br_table_imm-Onward opcode code s bad h i =
      weaken_fault (λ b. bad (bad_table h b)) (k.on_br_table opcode code s i) ⟫ λ s' j.
      read_vu32-Post code ⟫ λ (n, pc1) a.
      seek-Post pc1 (u32 (n + 1)) ⟫ λ pc2 b. returns (IsFrom-trans (IsAhead-IsFrom a) b, j)

  select_t_imm-Onward :
      (opcode : ℕ) (code : Stream) (s : S)
      → I s
      → Post (Onward J code) F (select_t_imm cb mod' opcode code s)
  unfolding select_t_imm
  select_t_imm-Onward opcode code s i = read_vi7-Post code ⟫ λ (n, pc1) a.
      Post-if (n != 1) _ _ (λ _. throws)
        (λ _. read_vi7-Post pc1 ⟫ λ (t, pc2) b.
          Post-if (not (is_value_type t)) _ _ (λ _. throws)
            (λ _. k.on_select_t opcode code t s i ⟫ λ s' j.
              returns (IsAhead-IsFrom (IsAhead-trans a b), j)))

  decode_parametric-Onward :
      (opcode : ℕ) (code : Stream) (s : S)
      → IsValid code
      → I s
      → Post (Onward J code) F (decode_parametric cb mod' opcode code s)
  unfolding decode_parametric
  decode_parametric-Onward opcode code s v i =
      search
        (
          Post-if,
          no_imm-Onward,
          select_t_imm-Onward,
          k.on_drop,
          k.on_select,
          decode_fc-Onward cb k,
          decode_fd-Onward cb k,
          decode_variable-Onward cb k,
          v,
          i,
        )
        depth 20

  decode_branch-Onward :
      (opcode : ℕ) (code : Stream) (s : S)
      → (IsBadImm B mod' opcode code → F)
      → IsValid code
      → I s
      → Post (Onward J code) F (decode_branch cb mod' opcode code s)
  unfolding decode_branch
  decode_branch-Onward opcode code s bad v i =
      search
        (
          Post-if, br_imm-Onward, br_table_imm-Onward, no_imm-Onward, u32_imm-Onward,
          u32_u32_imm-Onward, k.on_return, k.on_call, k.on_call_indirect, decode_parametric-Onward,
          bad, v, i,
        )
        depth 20

  pub decode_op-Onward :
      (opcode : ℕ) (code : Stream) (s : S)
      → (IsBadImm B mod' opcode code → F)
      → IsValid code
      → I s
      → Post (Onward J code) F (decode_op cb mod' opcode code s)
  unfolding decode_op
  decode_op-Onward opcode code s bad v i =
      search
        (
          Post-if, no_imm-Onward, block_imm-Onward, k.on_unreachable, k.on_nop, k.on_else, k.on_end,
          decode_branch-Onward, bad, v, i,
        )
        depth 20
