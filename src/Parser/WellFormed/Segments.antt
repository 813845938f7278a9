-- ===== src/Parser/WellFormed/Segments.antt =====
-- The sections of data of src/runtime/parser.c keep a module well formed.
use silverfir.Prelude.{ℕ, ◌≡◌, refl, ltb, ◌==◌, ◌!=◌, bit_and, arith, List, All, All-append, Option}
use silverfir.Result.Post.{Post, returns, throws, Post-if, ◌⟫◌}
use silverfir.Stream.{Stream}
use silverfir.Stream.Moves.{read_vu32-Post}
use silverfir.Module.{Module, Segment, VecFlags}
use silverfir.Parser.Segments.{
  parse_memidx, parse_data_offset, parse_bytes, parse_data, count_differs, parse_section_data,
  parse_section_data_count,
}
use silverfir.Parser.Rules.{
  Of, Any, for_each-Post, at_end-Post, reserve-Post, slice-Post, parse_const_expr-Post,
}
use silverfir.Parser.WellFormed.{IsSegment, IsWellFormed}

with_segments :
    {m : Module} (data_count : Option ℕ) (segments : List Segment) (flags : VecFlags)
    → IsWellFormed m
    → All IsSegment segments
    → IsWellFormed (record m { data_count = data_count; segments = segments; flags = flags })
with_segments data_count segments flags w h = ground arith

module _ {F : Type 0} where
  parse_memidx-Post :
      (data_kind : ℕ) (st : Stream) → Post (Of (λ i. i ≡ 0)) F (parse_memidx data_kind st)
  unfolding parse_memidx
  parse_memidx-Post data_kind st =
      Post-if (bit_and data_kind 2 != 0) _ _
        (λ _. read_vu32-Post st ⟫ λ (idx, st') _.
          Post-if (idx != 0) _ _ (λ _. throws) (λ e. returns (ground arith)))
        (λ _. returns refl)

  parse_data_offset-Post :
      (data_kind : ℕ) (st : Stream) → Post (Of Any) F (parse_data_offset data_kind st)
  unfolding parse_data_offset
  parse_data_offset-Post data_kind st =
      Post-if (bit_and data_kind 1 == 0) _ _ (λ _. parse_const_expr-Post st) (λ _. returns tt)

  parse_bytes-Post : (byte_len : ℕ) (st : Stream) → Post (Of Any) F (parse_bytes byte_len st)
  unfolding parse_bytes
  parse_bytes-Post byte_len st =
      Post-if (byte_len == 0) _ _ (λ _. returns tt)
        (λ _. slice-Post st byte_len ⟫ λ (b, st') _. returns tt)

  parse_data-Kept :
      (segments : List Segment) (st : Stream)
      → All IsSegment segments
      → Post (Of (All IsSegment)) F (parse_data segments st)
  unfolding parse_data
  parse_data-Kept segments st h = read_vu32-Post st ⟫ λ (data_kind, st1) _.
      Post-if (ltb 2 data_kind) _ _ (λ _. throws)
        (λ _. parse_memidx-Post data_kind st1 ⟫ λ (memidx, st2) zero_idx.
          parse_data_offset-Post data_kind st2 ⟫ λ (offset_expr, st3) _.
          read_vu32-Post st3 ⟫ λ (byte_len, st4) _.
          parse_bytes-Post byte_len st4 ⟫ λ (bytes, st5) _.
          returns (All-append IsSegment segments _ h (zero_idx, tt)))

  pub parse_section_data-IsWellFormed :
      (m : Module) (st : Stream) → IsWellFormed m → Post IsWellFormed F (parse_section_data m st)
  unfolding parse_section_data
  parse_section_data-IsWellFormed m st w = read_vu32-Post st ⟫ λ (count, st1) _.
      Post-if (count_differs m.data_count count) _ _ (λ _. throws)
        (λ _. reserve-Post m.flags.segments_fixed ⟫ λ _ _.
          (for_each-Post count parse_data parse_data-Kept m.segments st1 w.segments ⟫ at_end-Post)
          ⟫ λ segments h. returns (with_segments _ segments _ w h))

  pub parse_section_data_count-IsWellFormed :
      (m : Module) (st : Stream)
      → IsWellFormed m
      → Post IsWellFormed F (parse_section_data_count m st)
  unfolding parse_section_data_count
  parse_section_data_count-IsWellFormed m st w = read_vu32-Post st ⟫ λ (data_count, st1) _.
      at_end-Post _ (with_segments _ m.segments m.flags w w.segments)
