-- ===== src/Parser.antt =====
-- src/runtime/parser.c: what the parsers of the sections share. Each section is a child module.
-- `is_valid_utf8` of src/utils/utf8.c, which comes from the wabt project, is a parameter of the
-- code that reads names.
pub mod Rules
pub mod WellFormed
pub mod Types
pub mod Imports
pub mod Definitions
pub mod Exports
pub mod Elements
pub mod Bodies
pub mod Segments
pub mod Binary
pub mod Order
pub mod Header
pub mod Locals
pub mod Entry
use silverfir.Prelude.{
  ℕ, zero, suc, Bool, ◌-◌, ◌&&◌, ltb, ◌==◌, ◌!=◌, if◌then◌else◌, List, [], take, drop,
}
use silverfir.Result.{Result, ok, err, fault, general, malformed, invalid, ◌>>=◌}
use silverfir.Stream.{Stream, remaining, read_u8, read_vi7, read_f32, read_f64, slice}
use silverfir.Stream.Leb.{read_vu32, read_vi32, read_vi64}
use silverfir.Module.{Limits}
use silverfir.Opcode.{
  op_i32_const, op_i64_const, op_f32_const, op_f64_const, op_ref_null, op_ref_func, op_global_get,
  op_end,
}

-- `for (u32 i = 0; i < count; i++)`, on what the rounds change.
unfoldable pub for_each {ℓ} :
    {A : Type ℓ} → ℕ → (A → Stream → Result (A × Stream)) → A → Stream → Result (A × Stream)
for_each zero round a st = ok (a, st)
for_each (suc count) round a st = do (a', st') ← round a st; for_each count round a' st'

-- The test at the end of a section, that its content is used up.
unfoldable pub at_end {ℓ} : {A : Type ℓ} → A × Stream → Result A
unfolding remaining
at_end (a, st) = if remaining st == 0 then ok a else err malformed

-- `vec_reserve` and `vec_set_fixed`, which a second section of the kind finds set.
unfoldable pub reserve : Bool → Result (Unit {0})
reserve fixed = if fixed then err general else ok tt

unfoldable pub limits_max : ℕ → ℕ → Stream → Result (ℕ × Stream)
limits_max flag max_cap st =
    if flag == 1
    then (do (m, st') ← read_vu32 st; if ltb max_cap m then err invalid else ok (m, st'))
    else ok (max_cap, st)

unfoldable pub parse_limits : Stream → ℕ → Result (Limits × Stream)
parse_limits st max_cap = do
  (flag, st1) ← read_u8 st
  if flag != 0 && flag != 1 then err malformed else do
    (min, st2) ← read_vu32 st1
    (max, st3) ← limits_max flag max_cap st2
    if ltb max min then err invalid else ok (record { min = min; max = max }, st3)

-- What the loop of `parse_const_expr` skips behind an opcode; an unknown opcode has no immediate.
unfoldable pub skip_immediate : ℕ → Stream → Result Stream
skip_immediate opcode st =
    if opcode == op_i32_const
    then (do (_, st') ← read_vi32 st; ok st')
    else if opcode == op_i64_const
    then (do (_, st') ← read_vi64 st; ok st')
    else if opcode == op_f32_const
    then (do (_, st') ← read_f32 st; ok st')
    else if opcode == op_f64_const
    then (do (_, st') ← read_f64 st; ok st')
    else if opcode == op_ref_null
    then (do (_, st') ← read_vi7 st; ok st')
    else if opcode == op_ref_func
    then (do (_, st') ← read_vu32 st; ok st')
    else if opcode == op_global_get
    then (do (_, st') ← read_vu32 st; ok st')
    else ok st

-- The loop, on fuel; a round takes a byte at least, so that the bytes left are enough.
unfoldable pub skip_expr : ℕ → Stream → Result Stream
skip_expr zero st = fault
skip_expr (suc fuel) st = do
  (opcode, st1) ← read_u8 st
  if opcode == op_end then ok st1 else do st2 ← skip_immediate opcode st1; skip_expr fuel st2

-- The bytes of the expression, its `end` included.
unfoldable pub parse_const_expr : Stream → Result (List ℕ × Stream)
unfolding remaining
parse_const_expr st = do
  st' ← skip_expr (suc (remaining st)) st
  ok (take (st'.p - st.p) (drop st.p st.s), st')

module _ (is_valid_utf8 : List ℕ → Bool) where
  unfoldable pub parse_name : Stream → Result (List ℕ × Stream)
  parse_name st = do
    (name_len, st1) ← read_vu32 st
    if name_len == 0 then ok ([], st1) else do
      (name, st2) ← slice st1 name_len
      if is_valid_utf8 name.s then ok (name.s, st2) else err malformed
