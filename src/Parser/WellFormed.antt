-- ===== src/Parser/WellFormed.antt =====
-- What a parsed module promises to the validator and the runtime: its types can be read back, and
-- its indices lie within its vectors.
pub mod Growth
pub mod Definitions
pub mod Imports
pub mod Exports
pub mod Elements
pub mod Bodies
pub mod Segments
pub mod Sections
use silverfir.Prelude.{
  ℕ, ◌≤◌, ◌<◌, ◌≡◌, true, List, [], ◌∷◌, Option, none, some, All, length, get_elem?,
}
use silverfir.Result.{ok}
use silverfir.Format.{TypeId, is_ref, is_value_type}
use silverfir.Module.{
  FuncType, Func, Limits, Table, Memory, Global, Export, Element, Segment, Module, parse_types,
}
use silverfir.Parser.Types.{result_type_count_max}
use silverfir.Parser.Imports.{
  external_kind_function, external_kind_table, external_kind_memory, external_kind_global,
  wasm_mem_max_pages, u32_max,
}

-- The bytes hold so many value types, which `parse_types` reads.
abbrev pub Parses : ℕ → List ℕ → Type 0
Parses count bytes =
    (count ≤ result_type_count_max) × (ts : List TypeId) × (parse_types count bytes ≡ ok ts)

pub record HasTypes (ft : FuncType) : Type 0 where
  pub params : Parses ft.param_count ft.params
  pub results : Parses ft.result_count ft.results

abbrev pub types_of : List Func → List FuncType
types_of [] = []
types_of (f ∷ funcs) = f.fn_type ∷ types_of funcs

abbrev pub IsWithin : ℕ → Limits → Type 0
IsWithin max_cap lim = (lim.min ≤ lim.max) × (lim.max ≤ max_cap)

abbrev pub IsTable : Table → Type 0
IsTable t = (is_ref t.valtype ≡ true) × IsWithin u32_max t.lim

abbrev pub IsMemory : Memory → Type 0
IsMemory m = IsWithin wasm_mem_max_pages m.lim

abbrev pub IsGlobal : Global → Type 0
IsGlobal g = is_value_type g.valtype ≡ true

-- The kind of an export names a vector that has its index.
pub data IsExported (funcs tables memories globals : ℕ) (e : Export) : Type 0 where
  of_function :
      e.external_kind ≡ external_kind_function
      → e.external_idx < funcs
      → IsExported funcs tables memories globals e
  of_table :
      e.external_kind ≡ external_kind_table
      → e.external_idx < tables
      → IsExported funcs tables memories globals e
  of_memory :
      e.external_kind ≡ external_kind_memory
      → e.external_idx < memories
      → IsExported funcs tables memories globals e
  of_global :
      e.external_kind ≡ external_kind_global
      → e.external_idx < globals
      → IsExported funcs tables memories globals e

abbrev pub ExportedFrom : Module → Export → Type 0
ExportedFrom m =
    IsExported (length m.funcs) (length m.tables) (length m.memories) (length m.globals)

-- The start function takes no parameter and returns nothing.
abbrev pub IsStart : List FuncType → Option ℕ → Type 0
IsStart types none = Unit
IsStart types (some i) =
    (ft : FuncType) × (get_elem? types i ≡ some ft) × (ft.param_count ≡ 0) × (ft.result_count ≡ 0)

abbrev pub IsElement : ℕ → Element → Type 0
IsElement funcs e = (is_ref e.valtype ≡ true) × All (λ i. i < funcs) e.v_funcidx

abbrev pub IsSegment : Segment → Type 0
IsSegment d = d.memidx ≡ 0

pub record IsWellFormed (m : Module) : Type 0 where
  pub func_types : All HasTypes m.func_types
  pub funcs : All HasTypes (types_of m.funcs)
  pub imported : m.imported_func_count ≤ length m.funcs
  pub tables : All IsTable m.tables
  pub memories : All IsMemory m.memories
  pub globals : All IsGlobal m.globals
  pub exports : All (ExportedFrom m) m.exports
  pub start : IsStart (types_of m.funcs) m.start_funcidx
  pub elements : All (IsElement (length m.funcs)) m.elements
  pub segments : All IsSegment m.segments
