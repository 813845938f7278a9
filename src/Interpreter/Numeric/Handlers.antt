-- ===== src/Interpreter/Numeric/Handlers.antt =====
-- The handlers of the integer instructions of src/interpreter/in_place_dt.c, by opcode.
use silverfir.Prelude.{
  ℕ, ◌+◌, ◌-◌, ◌*◌, ◌/◌, ◌%◌, ◌^◌, Bool, true, false, ◌&&◌, ◌||◌, ◌==◌, if◌then◌else◌, List, [],
  ◌∷◌, Option, none, some,
}
use silverfir.Result.{Result, ok, err, general, ◌>>=◌}
use silverfir.Opcode.{
  op_i32_add, op_i32_and, op_i32_clz, op_i32_ctz, op_i32_div_s, op_i32_div_u, op_i32_eq, op_i32_eqz,
  op_i32_extend16_s, op_i32_extend8_s, op_i32_ge_s, op_i32_ge_u, op_i32_gt_s, op_i32_gt_u,
  op_i32_le_s, op_i32_le_u, op_i32_lt_s, op_i32_lt_u, op_i32_mul, op_i32_ne, op_i32_or,
  op_i32_popcnt, op_i32_rem_s, op_i32_rem_u, op_i32_rotl, op_i32_rotr, op_i32_shl, op_i32_shr_s,
  op_i32_shr_u, op_i32_sub, op_i32_wrap_i64, op_i32_xor, op_i64_add, op_i64_and, op_i64_clz,
  op_i64_ctz, op_i64_div_s, op_i64_div_u, op_i64_eq, op_i64_eqz, op_i64_extend16_s,
  op_i64_extend32_s, op_i64_extend8_s, op_i64_extend_i32_s, op_i64_extend_i32_u, op_i64_ge_s,
  op_i64_ge_u, op_i64_gt_s, op_i64_gt_u, op_i64_le_s, op_i64_le_u, op_i64_lt_s, op_i64_lt_u,
  op_i64_mul, op_i64_ne, op_i64_or, op_i64_popcnt, op_i64_rem_s, op_i64_rem_u, op_i64_rotl,
  op_i64_rotr, op_i64_shl, op_i64_shr_s, op_i64_shr_u, op_i64_sub, op_i64_xor,
}
use silverfir.Interpreter.{Machine, pop, push}
use silverfir.Interpreter.Memory.{extend}
use silverfir.Interpreter.Numeric.{
  bias, s_add, s_sub, s_mul, s_div, s_rem, s_div_unsigned, s_rem_unsigned, s_and, s_or, s_xor,
  s_shl, s_shr, s_shr_unsigned, s_rotl, s_rotr, s_eqz, s_eq, s_ne, s_lt, s_gt, s_le, s_ge, s_clz,
  s_ctz, s_popcnt,
}

-- `UNOP`, on a member of `w` bits of the union, which leaves the bits above it.
unfoldable pub exec_unop : ℕ → (ℕ → ℕ) → Machine → Result Machine
exec_unop w op m = do (v, m1) ← pop m; ok (push (v / 2 ^ w * 2 ^ w + op (v % 2 ^ w)) m1)

-- `CONVERT_OP`, from a member of `src` bits to one of `tgt`.
unfoldable pub exec_convert : ℕ → ℕ → (ℕ → ℕ) → Machine → Result Machine
exec_convert tgt src op m = do
  (v, m1) ← pop m
  ok (push (v / 2 ^ tgt * 2 ^ tgt + op (v % 2 ^ src) % 2 ^ tgt) m1)

-- `BINOP` and `RELOP`
unfoldable pub exec_binop : ℕ → (ℕ → ℕ → Result ℕ) → Machine → Result Machine
exec_binop w op m = do
  (v2, m1) ← pop m
  (v1, m2) ← pop m1
  v ← op (v1 % 2 ^ w) (v2 % 2 ^ w)
  ok (push v m2)

unfoldable pub exec_div_s : ℕ → Machine → Result Machine
exec_div_s w m = do
  (v2, m1) ← pop m
  (v1, m2) ← pop m1
  let a = v1 % 2 ^ w
  let b = v2 % 2 ^ w
  if ((a == 2 ^ (w - 1)) && (b == 2 ^ w - 1)) || (b == 0)
      then err general
      else do q ← s_div w a b; ok (push q m2)

unfoldable pub exec_div_u : ℕ → Machine → Result Machine
exec_div_u w m = do
  (v2, m1) ← pop m
  (v1, m2) ← pop m1
  if v2 % 2 ^ w == 0
      then err general
      else do q ← s_div_unsigned (v1 % 2 ^ w) (v2 % 2 ^ w); ok (push q m2)

unfoldable pub exec_rem_s : ℕ → Machine → Result Machine
exec_rem_s w m = do
  (v2, m1) ← pop m
  (v1, m2) ← pop m1
  let a = v1 % 2 ^ w
  let b = v2 % 2 ^ w
  if (a == 2 ^ (w - 1)) && (b == 2 ^ w - 1)
      then ok (push 0 m2)
      else if b == 0
      then err general
      else do r ← s_rem w a b; ok (push r m2)

unfoldable pub exec_rem_u : ℕ → Machine → Result Machine
exec_rem_u w m = do
  (v2, m1) ← pop m
  (v1, m2) ← pop m1
  if v2 % 2 ^ w == 0
      then err general
      else do r ← s_rem_unsigned (v1 % 2 ^ w) (v2 % 2 ^ w); ok (push r m2)

-- The members of an operand read as signed or unsigned.
abbrev pub value_of : ℕ → Bool → ℕ → ℕ
value_of w signed a = if signed then bias w a else a

abbrev pub Handler : Type 0
Handler = ℕ × (Machine → Result Machine)

abbrev pub i32_relations : List Handler
i32_relations =
    (op_i32_eqz, exec_unop 32 s_eqz)
    ∷ (op_i32_eq, exec_binop 32 s_eq)
    ∷ (op_i32_ne, exec_binop 32 s_ne)
    ∷ (op_i32_lt_s, exec_binop 32 (s_lt (value_of 32 true)))
    ∷ (op_i32_lt_u, exec_binop 32 (s_lt (value_of 32 false)))
    ∷ (op_i32_gt_s, exec_binop 32 (s_gt (value_of 32 true)))
    ∷ (op_i32_gt_u, exec_binop 32 (s_gt (value_of 32 false)))
    ∷ (op_i32_le_s, exec_binop 32 (s_le (value_of 32 true)))
    ∷ (op_i32_le_u, exec_binop 32 (s_le (value_of 32 false)))
    ∷ (op_i32_ge_s, exec_binop 32 (s_ge (value_of 32 true)))
    ∷ (op_i32_ge_u, exec_binop 32 (s_ge (value_of 32 false)))
    ∷ []

abbrev pub i32_arithmetic : List Handler
i32_arithmetic =
    (op_i32_clz, exec_unop 32 (s_clz 32))
    ∷ (op_i32_ctz, exec_unop 32 (s_ctz 32))
    ∷ (op_i32_popcnt, exec_unop 32 (s_popcnt 32))
    ∷ (op_i32_add, exec_binop 32 (s_add 32))
    ∷ (op_i32_sub, exec_binop 32 (s_sub 32))
    ∷ (op_i32_mul, exec_binop 32 (s_mul 32))
    ∷ (op_i32_div_s, exec_div_s 32)
    ∷ (op_i32_div_u, exec_div_u 32)
    ∷ (op_i32_rem_s, exec_rem_s 32)
    ∷ (op_i32_rem_u, exec_rem_u 32)
    ∷ (op_i32_and, exec_binop 32 s_and)
    ∷ (op_i32_or, exec_binop 32 s_or)
    ∷ (op_i32_xor, exec_binop 32 s_xor)
    ∷ (op_i32_shl, exec_binop 32 (s_shl 32))
    ∷ (op_i32_shr_s, exec_binop 32 (s_shr 32))
    ∷ (op_i32_shr_u, exec_binop 32 (s_shr_unsigned 32))
    ∷ (op_i32_rotl, exec_binop 32 (s_rotl 32))
    ∷ (op_i32_rotr, exec_binop 32 (s_rotr 32))
    ∷ []

abbrev pub i64_relations : List Handler
i64_relations =
    (op_i64_eqz, exec_unop 64 s_eqz)
    ∷ (op_i64_eq, exec_binop 64 s_eq)
    ∷ (op_i64_ne, exec_binop 64 s_ne)
    ∷ (op_i64_lt_s, exec_binop 64 (s_lt (value_of 64 true)))
    ∷ (op_i64_lt_u, exec_binop 64 (s_lt (value_of 64 false)))
    ∷ (op_i64_gt_s, exec_binop 64 (s_gt (value_of 64 true)))
    ∷ (op_i64_gt_u, exec_binop 64 (s_gt (value_of 64 false)))
    ∷ (op_i64_le_s, exec_binop 64 (s_le (value_of 64 true)))
    ∷ (op_i64_le_u, exec_binop 64 (s_le (value_of 64 false)))
    ∷ (op_i64_ge_s, exec_binop 64 (s_ge (value_of 64 true)))
    ∷ (op_i64_ge_u, exec_binop 64 (s_ge (value_of 64 false)))
    ∷ []

abbrev pub i64_arithmetic : List Handler
i64_arithmetic =
    (op_i64_clz, exec_unop 64 (s_clz 64))
    ∷ (op_i64_ctz, exec_unop 64 (s_ctz 64))
    ∷ (op_i64_popcnt, exec_unop 64 (s_popcnt 64))
    ∷ (op_i64_add, exec_binop 64 (s_add 64))
    ∷ (op_i64_sub, exec_binop 64 (s_sub 64))
    ∷ (op_i64_mul, exec_binop 64 (s_mul 64))
    ∷ (op_i64_div_s, exec_div_s 64)
    ∷ (op_i64_div_u, exec_div_u 64)
    ∷ (op_i64_rem_s, exec_rem_s 64)
    ∷ (op_i64_rem_u, exec_rem_u 64)
    ∷ (op_i64_and, exec_binop 64 s_and)
    ∷ (op_i64_or, exec_binop 64 s_or)
    ∷ (op_i64_xor, exec_binop 64 s_xor)
    ∷ (op_i64_shl, exec_binop 64 (s_shl 64))
    ∷ (op_i64_shr_s, exec_binop 64 (s_shr 64))
    ∷ (op_i64_shr_u, exec_binop 64 (s_shr_unsigned 64))
    ∷ (op_i64_rotl, exec_binop 64 (s_rotl 64))
    ∷ (op_i64_rotr, exec_binop 64 (s_rotr 64))
    ∷ []

-- `s_as_i8` and the like read the low bytes of the operand, and the assignment copies the sign.
abbrev pub integer_conversions : List Handler
integer_conversions =
    (op_i32_wrap_i64, exec_convert 32 64 (λ x. x))
    ∷ (op_i64_extend_i32_s, exec_convert 64 32 (λ x. extend 64 true 4 x))
    ∷ (op_i64_extend_i32_u, exec_convert 64 32 (λ x. x))
    ∷ (op_i32_extend8_s, exec_convert 32 32 (λ x. extend 32 true 1 (x % 2 ^ 8)))
    ∷ (op_i32_extend16_s, exec_convert 32 32 (λ x. extend 32 true 2 (x % 2 ^ 16)))
    ∷ (op_i64_extend8_s, exec_convert 64 32 (λ x. extend 64 true 1 (x % 2 ^ 8)))
    ∷ (op_i64_extend16_s, exec_convert 64 32 (λ x. extend 64 true 2 (x % 2 ^ 16)))
    ∷ (op_i64_extend32_s, exec_convert 64 64 (λ x. extend 64 true 4 (x % 2 ^ 32)))
    ∷ []

abbrev pub handler_of : ℕ → List Handler → Option (Machine → Result Machine)
handler_of opcode [] = none
handler_of opcode (h ∷ hs) = if h.0 == opcode then some h.1 else handler_of opcode hs
