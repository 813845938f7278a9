-- ===== src/Parser/WellFormed/Sections.antt =====
-- The whole of `parse_module` of src/runtime/parser.c: every section keeps the module well formed, and
-- the loop over the sections ends.
use silverfir.Prelude.{
  ℕ, zero, suc, ◌-◌, ◌<◌, ◌≡◌, ◌≢◌, ap, Bool, Bool-cases, inl, inr, ◌==◌, ◌!=◌, arith, List, length,
  drop,
}
use silverfir.Result.{ok, fault}
use silverfir.Result.Post.{Post, returns, throws, Post-if, ◌⟫◌, of_ok, of_fault}
use silverfir.Stream.{Stream, stream_from, remaining}
use silverfir.Stream.Moves.{IsAhead-trans, read_u32-Post, read_vu7-Post, read_vu32-Post}
use silverfir.Module.{Module}
use silverfir.Parser.Binary.{
  section_order, find_section, advance_order, parse_section, parse_round, parse_sections,
  parse_module, module_of, module_init,
}
use silverfir.Parser.Types.Parses.{parse_section_type-IsWellFormed}
use silverfir.Parser.Rules.{slice-Post}
use silverfir.Parser.WellFormed.{IsWellFormed}
use silverfir.Parser.WellFormed.Imports.{parse_section_import-IsWellFormed}
use silverfir.Parser.WellFormed.Definitions.{
  parse_section_function-IsWellFormed, parse_section_table-IsWellFormed,
  parse_section_memory-IsWellFormed, parse_section_global-IsWellFormed,
}
use silverfir.Parser.WellFormed.Exports.{
  parse_section_export-IsWellFormed, parse_section_start-IsWellFormed,
}
use silverfir.Parser.WellFormed.Elements.{parse_section_element-IsWellFormed}
use silverfir.Parser.WellFormed.Bodies.{parse_section_code-IsWellFormed}
use silverfir.Parser.WellFormed.Segments.{
  parse_section_data-IsWellFormed, parse_section_data_count-IsWellFormed,
}

with_version :
    {m : Module} (version : ℕ)
    → IsWellFormed m
    → IsWellFormed (record m { format_version = version })
with_version version w = ground arith

-- What is left of a stream, in bytes.
abbrev left : Stream → ℕ
left st = length st.s - st.p

module _ {F : Type 0} (is_valid_utf8 : List ℕ → Bool) where
  pub parse_section-IsWellFormed :
      (id : ℕ) (m : Module) (st : Stream)
      → IsWellFormed m
      → Post IsWellFormed F (parse_section is_valid_utf8 id m st)
  unfolding parse_section
  parse_section-IsWellFormed id m st w =
      search
        (
          Post-if, returns, w, throws, parse_section_type-IsWellFormed,
          parse_section_import-IsWellFormed, parse_section_function-IsWellFormed,
          parse_section_table-IsWellFormed, parse_section_memory-IsWellFormed,
          parse_section_global-IsWellFormed, parse_section_export-IsWellFormed,
          parse_section_start-IsWellFormed, parse_section_element-IsWellFormed,
          parse_section_code-IsWellFormed, parse_section_data-IsWellFormed,
          parse_section_data_count-IsWellFormed,
        )
        depth 40

  advance_order-Post : (id idx : ℕ) → Post (λ _. Unit {0}) F (advance_order id idx)
  unfolding advance_order
  advance_order-Post id idx =
      Post-if (id == 0) _ _ (λ _. returns tt)
        (λ _.
          Post-if (find_section id (drop idx section_order) idx == length section_order) _ _
            (λ _. throws) (λ _. returns tt))

  -- A round leaves a well-formed module, and fewer bytes.
  parse_round-IsWellFormed :
      (order_idx : ℕ) (m : Module) (st : Stream)
      → IsWellFormed m
      → Post
          (λ ((_, m'), st'). IsWellFormed m' × (left st' < left st))
          F
          (parse_round is_valid_utf8 order_idx m st)
  unfolding parse_round
  parse_round-IsWellFormed order_idx m st w = read_vu7-Post st ⟫ λ (id, st1) a.
      read_vu32-Post st1 ⟫ λ (payload_len, st2) b. advance_order-Post id order_idx ⟫ λ order_idx' _.
      let c = IsAhead-trans a b in
      let shorter : left st2 < left st = omega (arith, ap length (c.same), c.ahead, c.within) in
      Post-if (payload_len == 0) _ _ (λ _. returns (w, shorter))
        (λ _. slice-Post st2 payload_len ⟫ λ (section_content, st3) (same, forward, _).
          parse_section-IsWellFormed id m section_content w ⟫ λ parsed v.
          returns (v, omega (arith, ap length same, forward, shorter)))

  -- The bytes left are fuel enough.
  parse_sections-IsWellFormed :
      (fuel order_idx : ℕ) (m : Module) (st : Stream)
      → IsWellFormed m
      → left st < fuel
      → Post IsWellFormed F (parse_sections is_valid_utf8 fuel order_idx m st)
  unfolding parse_sections
  parse_sections-IsWellFormed zero order_idx m st w h = absurd (omega arith)
  parse_sections-IsWellFormed (suc fuel) order_idx m st w h =
      elim (Bool-cases (remaining st == 0)) [
        | inl done ↦ rw (done, parse_sections) (returns w)
        | inr more ↦
            rw (more, parse_sections)
              (parse_round-IsWellFormed order_idx m st w
                ⟫ λ ((order_idx', parsed), st') (v, shorter).
                    parse_sections-IsWellFormed fuel order_idx' parsed st' v (omega arith))
      ]

  parse_module-Post :
      (m : Module) → IsWellFormed m → Post IsWellFormed F (parse_module is_valid_utf8 m)
  unfolding parse_module stream_from remaining
  parse_module-Post m w =
      Post-if (length m.wasm_bin == 0) _ _ (λ _. throws)
        (λ _. read_u32-Post (stream_from m.wasm_bin) ⟫ λ (magic, st1) _.
          Post-if (magic != 0x6d736100) _ _ (λ _. throws)
            (λ _. read_u32-Post st1 ⟫ λ (version, st2) _.
              Post-if (version != 1) _ _ (λ _. throws)
                (λ _.
                  parse_sections-IsWellFormed _ 0 _ st2 (with_version version w) (omega arith))))

  module_init-Post : (bin : List ℕ) → Post IsWellFormed F (module_init is_valid_utf8 bin)
  unfolding module_init
  module_init-Post bin = parse_module-Post (module_of bin) (ground arith)

-- Whatever the bytes, a module that `module_init` accepts is well formed: its function types can be
-- read back by `parse_types`, the types of its functions too, no more functions are imported than
-- there are, tables and memories have limits in range and in order, globals have value types,
-- exports name an index that their vector has, the start function exists and has neither parameters
-- nor results, the functions that element segments list exist, and data segments are for memory 0.
pub module_init-IsWellFormed :
    (is_valid_utf8 : List ℕ → Bool) (bin : List ℕ) (m : Module)
    → module_init is_valid_utf8 bin ≡ ok m
    → IsWellFormed m
module_init-IsWellFormed is_valid_utf8 bin m e =
    of_ok {F = ⊥} (module_init is_valid_utf8 bin) (module_init-Post is_valid_utf8 bin) e

-- Parsing ends on every input, and reads no vector out of its range, whatever it is.
pub module_init-ne-fault :
    (is_valid_utf8 : List ℕ → Bool) (bin : List ℕ) → module_init is_valid_utf8 bin ≢ fault
module_init-ne-fault is_valid_utf8 bin =
    of_fault (module_init is_valid_utf8 bin) (module_init-Post is_valid_utf8 bin)
