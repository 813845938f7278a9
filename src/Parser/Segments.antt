-- ===== src/Parser/Segments.antt =====
-- `parse_section_data` and `parse_section_data_count` of src/runtime/parser.c.
use silverfir.Prelude.{
  ℕ, Bool, true, false, ltb, ◌==◌, ◌!=◌, bit_and, if◌then◌else◌, List, [], ◌∷◌, ◌++◌, Option, none,
  some,
}
use silverfir.Result.{Result, ok, err, malformed, invalid, ◌>>=◌}
use silverfir.Stream.{Stream, slice}
use silverfir.Stream.Leb.{read_vu32}
use silverfir.Module.{Module, Segment}
use silverfir.Parser.{for_each, at_end, reserve, parse_const_expr}

-- At most one memory, so that an index that is given is 0.
unfoldable pub parse_memidx : ℕ → Stream → Result (ℕ × Stream)
parse_memidx data_kind st =
    if bit_and data_kind 2 != 0
    then (do (idx, st') ← read_vu32 st; if idx != 0 then err invalid else ok (idx, st'))
    else ok (0, st)

unfoldable pub parse_data_offset : ℕ → Stream → Result (List ℕ × Stream)
parse_data_offset data_kind st =
    if bit_and data_kind 1 == 0 then parse_const_expr st else ok ([], st)

unfoldable pub parse_bytes : ℕ → Stream → Result (List ℕ × Stream)
parse_bytes byte_len st =
    if byte_len == 0 then ok ([], st) else do (b, st') ← slice st byte_len; ok (b.s, st')

unfoldable pub parse_data : List Segment → Stream → Result (List Segment × Stream)
parse_data segments st = do
  (data_kind, st1) ← read_vu32 st
  if ltb 2 data_kind then err malformed else do
    (memidx, st2) ← parse_memidx data_kind st1
    (offset_expr, st3) ← parse_data_offset data_kind st2
    (byte_len, st4) ← read_vu32 st3
    (bytes, st5) ← parse_bytes byte_len st4
    ok (
      segments
          ++ (record {
            is_active = bit_and data_kind 1 == 0;
            memidx = memidx;
            offset_expr = offset_expr;
            bytes = bytes;
          }
              ∷ []),
      st5,
    )

-- `is_some(mod->data_count) && value(mod->data_count) != count`
unfoldable pub count_differs : Option ℕ → ℕ → Bool
count_differs none count = false
count_differs (some data_count) count = data_count != count

unfoldable pub parse_section_data : Module → Stream → Result Module
parse_section_data mod' st = do
  (count, st1) ← read_vu32 st
  if count_differs mod'.data_count count then err malformed else do
    _ ← reserve mod'.flags.segments_fixed
    segments ← (for_each count parse_data mod'.segments st1 >>= at_end)
    ok (record mod' {
      data_count = some count;
      segments = segments;
      flags = record (mod'.flags) { segments_fixed = true };
    })

unfoldable pub parse_section_data_count : Module → Stream → Result Module
parse_section_data_count mod' st = do
  (data_count, st1) ← read_vu32 st
  at_end (record mod' { data_count = some data_count }, st1)
