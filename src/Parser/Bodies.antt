-- ===== src/Parser/Bodies.antt =====
-- `parse_section_code` of src/runtime/parser.c.
use silverfir.Prelude.{
  ℕ, zero, suc, true, not, ◌+◌, ltb, ◌==◌, ◌!=◌, if◌then◌else◌, u32, List, [], ◌∷◌, ◌++◌, none,
  some, get_elem?, modify, length, drop,
}
use silverfir.Result.{Result, ok, err, fault, malformed, invalid, ◌>>=◌}
use silverfir.Stream.{Stream, remaining, read_vi7, slice}
use silverfir.Stream.Leb.{read_vu32}
use silverfir.Format.{TypeId, is_value_type}
use silverfir.Module.{Module, Func}
use silverfir.Parser.{for_each, at_end, reserve}
use silverfir.Parser.Imports.{u32_max}

unfoldable pub replicate : ℕ → TypeId → List TypeId
replicate zero t = []
replicate (suc n) t = t ∷ replicate n t

-- The first pass over the groups of locals, which adds up their number.
unfoldable pub count_group : ℕ → Stream → Result (ℕ × Stream)
count_group total_locals st = do
  (local_count, st1) ← read_vu32 st
  (_, st2) ← read_vi7 st1
  if ltb u32_max (total_locals + local_count)
      then err malformed
      else ok (total_locals + local_count, st2)

-- The second pass. A vector that an earlier section has fixed has no room for another local.
unfoldable pub push_group : Func → Stream → Result (Func × Stream)
push_group fn st = do
  (local_count, st1) ← read_vu32 st
  (valtype, st2) ← read_vi7 st1
  if not (is_value_type valtype) then err invalid else if local_count == 0 then ok (fn, st2) else do
    _ ← reserve fn.local_types_fixed
    ok (
      record fn {
        local_types = fn.local_types ++ replicate local_count valtype;
        local_count = u32 (fn.local_count + local_count);
      },
      st2,
    )

-- A body, its size stripped: the locals and the code behind them.
unfoldable pub parse_body : Func → Stream → Result Func
unfolding remaining
parse_body fn code = do
  (local_group_count, code1) ← read_vu32 code
  _ ← for_each local_group_count count_group 0 code1
  (fn', code2) ← for_each local_group_count push_group fn code1
  if remaining code2 == 0 then err invalid else do
    _ ← reserve fn'.local_types_fixed
    ok (record fn' { code = drop code2.p code2.s; local_types_fixed = true })

-- A round of the loop, with its counter.
unfoldable pub parse_code : ℕ → ℕ × List Func → Stream → Result ((ℕ × List Func) × Stream)
parse_code imported (i, funcs) st =
    let idx = u32 (imported + i) in
    elim (get_elem? funcs idx) [
      | none ↦ fault
      | some fn ↦ do
        (code_size, st1) ← read_vu32 st
        (code, st2) ← slice st1 code_size
        fn' ← parse_body fn code
        ok ((suc i, modify funcs idx (λ _. fn')), st2)
    ]

unfoldable pub parse_section_code : Module → Stream → Result Module
parse_section_code mod' st = do
  (count, st1) ← read_vu32 st
  if u32 (count + mod'.imported_func_count) != length mod'.funcs then err malformed else do
    (_, funcs) ←
        (for_each count (parse_code mod'.imported_func_count) (0, mod'.funcs) st1 >>= at_end)
    ok (record mod' { funcs = funcs })
