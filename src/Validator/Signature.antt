-- ===== src/Validator/Signature.antt =====
-- The numeric instructions of the specification, and what the switch of src/common/op_decoder.c with
-- the callbacks of src/runtime/validator.c makes of them.
use silverfir.Prelude.{ℕ, zero, suc, ◌+◌, ◌≤◌, ◌<◌, ◌≡◌, refl, arith, leb, if◌then◌else◌, one_of}
use native.Mathlib.Decide.{dec_lt}
use silverfir.Result.{Result, ok, ◌>>=◌}
use silverfir.Format.{TypeId, type_id_i32, type_id_i64, type_id_f32, type_id_f64}
use silverfir.Stream.{Stream}
use silverfir.Module.{Module}
use silverfir.Decoder.Control.{decode_op, decode_branch, decode_parametric}
use silverfir.Decoder.Operand.{decode_variable, decode_memory, decode_const, decode_reference}
use silverfir.Decoder.Numeric.{decode_numeric}
use silverfir.Decoder.Immediate.{no_imm}
use silverfir.Validator.Context.{Context, push_val, pop_drop}
use silverfir.Validator.Numeric.{
  pop1_push, pop2_push, on_itestop, on_iunop, on_irelop, on_ibinop, on_funop, on_frelop, on_fbinop,
  on_truncop, on_convertop, on_rankop, on_reinterpretop, on_extendop, on_wrapop,
}
use silverfir.Validator.Callbacks.{validator_callbacks}

-- How many operands of which type an instruction pops, and the type of its result.
pub record Signature : Type 0 where
  pub operands : ℕ
  pub operand : TypeId
  pub result : TypeId

abbrev pub sig : ℕ → TypeId → TypeId → Signature
sig n a b = record { operands = n; operand = a; result = b }

-- The table of the specification, from `i32.eqz` to `i64.extend32_s`.
abbrev pub signature : ℕ → Signature
signature opcode =
    if leb opcode 0x45
    then sig 1 type_id_i32 type_id_i32
    else if leb opcode 0x4f
    then sig 2 type_id_i32 type_id_i32
    else if leb opcode 0x50
    then sig 1 type_id_i64 type_id_i32
    else if leb opcode 0x5a
    then sig 2 type_id_i64 type_id_i32
    else if leb opcode 0x60
    then sig 2 type_id_f32 type_id_i32
    else if leb opcode 0x66
    then sig 2 type_id_f64 type_id_i32
    else if leb opcode 0x69
    then sig 1 type_id_i32 type_id_i32
    else if leb opcode 0x78
    then sig 2 type_id_i32 type_id_i32
    else if leb opcode 0x7b
    then sig 1 type_id_i64 type_id_i64
    else if leb opcode 0x8a
    then sig 2 type_id_i64 type_id_i64
    else if leb opcode 0x91
    then sig 1 type_id_f32 type_id_f32
    else if leb opcode 0x98
    then sig 2 type_id_f32 type_id_f32
    else if leb opcode 0x9f
    then sig 1 type_id_f64 type_id_f64
    else if leb opcode 0xa6
    then sig 2 type_id_f64 type_id_f64
    else if leb opcode 0xa7
    then sig 1 type_id_i64 type_id_i32
    else if leb opcode 0xa9
    then sig 1 type_id_f32 type_id_i32
    else if leb opcode 0xab
    then sig 1 type_id_f64 type_id_i32
    else if leb opcode 0xad
    then sig 1 type_id_i32 type_id_i64
    else if leb opcode 0xaf
    then sig 1 type_id_f32 type_id_i64
    else if leb opcode 0xb1
    then sig 1 type_id_f64 type_id_i64
    else if leb opcode 0xb3
    then sig 1 type_id_i32 type_id_f32
    else if leb opcode 0xb5
    then sig 1 type_id_i64 type_id_f32
    else if leb opcode 0xb6
    then sig 1 type_id_f64 type_id_f32
    else if leb opcode 0xb8
    then sig 1 type_id_i32 type_id_f64
    else if leb opcode 0xba
    then sig 1 type_id_i64 type_id_f64
    else if leb opcode 0xbb
    then sig 1 type_id_f32 type_id_f64
    else if leb opcode 0xbc
    then sig 1 type_id_f32 type_id_i32
    else if leb opcode 0xbd
    then sig 1 type_id_f64 type_id_i64
    else if leb opcode 0xbe
    then sig 1 type_id_i32 type_id_f32
    else if leb opcode 0xbf
    then sig 1 type_id_i64 type_id_f64
    else if leb opcode 0xc1
    then sig 1 type_id_i32 type_id_i32
    else if leb opcode 0xc4
    then sig 1 type_id_i64 type_id_i64
    else sig 0 type_id_i32 type_id_i32

abbrev pub operate : ℕ → Signature → Context → Result Context
operate zero s ctx = push_val s.result ctx
operate (suc n) s ctx = do ctx' ← pop_drop s.operand ctx; operate n s ctx'

abbrev pub apply_signature : Signature → Stream → Context → Result (Stream × Context)
apply_signature s code ctx = do ctx' ← operate s.operands s ctx; ok (code, ctx')

-- A property of the n numbers from `base` on.
abbrev InRange : (ℕ → Type 0) → ℕ → ℕ → Type 0
InRange P base zero = Unit
InRange P base (suc n) = P base × InRange P (base + 1) n

infixr 3 ◌&◌
abbrev ◌&◌ : {A B : Type 0} → A → B → A × B
a & b = (a, b)

in_range : (P : ℕ → Type 0) (base n x : ℕ) → InRange P base n → base ≤ x → x < base + n → P x
in_range P base zero x r h k = absurd (omega arith)
in_range P base (suc n) x r h k = elim (dec_lt base x) [
  | yes p ↦ in_range P (base + 1) n x r.1 (omega arith) (omega arith)
  | no p ↦ let e : x ≡ base = omega (arith, p) in rw e r.0
]

module _ (mod' : Module) (code : Stream) (ctx : Context) where
  abbrev Agrees : ℕ → Type 0
  Agrees op =
      decode_op validator_callbacks mod' op code ctx ≡ apply_signature (signature op) code ctx

  Agrees-all : InRange Agrees 0x45 128
  unfolding decode_op decode_branch decode_parametric decode_variable decode_memory decode_const
      decode_reference decode_numeric no_imm one_of pop1_push pop2_push on_itestop on_iunop
      on_irelop on_ibinop on_funop on_frelop on_fbinop on_truncop on_convertop on_rankop
      on_reinterpretop on_extendop on_wrapop
  Agrees-all =
      refl & refl & refl & refl & refl & refl & refl & refl & refl & refl & refl & refl & refl
      & refl & refl & refl & refl & refl & refl & refl & refl & refl & refl & refl & refl & refl
      & refl & refl & refl & refl & refl & refl & refl & refl & refl & refl & refl & refl & refl
      & refl & refl & refl & refl & refl & refl & refl & refl & refl & refl & refl & refl & refl
      & refl & refl & refl & refl & refl & refl & refl & refl & refl & refl & refl & refl & refl
      & refl & refl & refl & refl & refl & refl & refl & refl & refl & refl & refl & refl & refl
      & refl & refl & refl & refl & refl & refl & refl & refl & refl & refl & refl & refl & refl
      & refl & refl & refl & refl & refl & refl & refl & refl & refl & refl & refl & refl & refl
      & refl & refl & refl & refl & refl & refl & refl & refl & refl & refl & refl & refl & refl
      & refl & refl & refl & refl & refl & refl & refl & refl & refl & refl & refl & tt

-- Every numeric instruction, from `i32.eqz` to `i64.extend32_s`, is checked by the signature that
-- the specification gives it: the switch hands it to a callback that pops its operands, pushes its
-- result, and fails where the operands are missing or of another type.
pub decode_op-signature :
    (mod' : Module) (opcode : ℕ) (code : Stream) (ctx : Context)
    → 0x45 ≤ opcode
    → opcode ≤ 0xc4
    → decode_op validator_callbacks mod' opcode code ctx
      ≡ apply_signature (signature opcode) code ctx
decode_op-signature mod' opcode code ctx h k =
    in_range (Agrees mod' code ctx) 0x45 128 opcode (Agrees-all mod' code ctx) h (omega arith)
