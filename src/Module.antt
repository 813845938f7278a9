-- ===== src/Module.antt =====
-- src/runtime/module.h: a parsed module, and `parse_types` of src/runtime/parser.c.
use silverfir.Prelude.{ℕ, zero, suc, Bool, List, [], ◌∷◌, Option, if◌then◌else◌, bit_and, ◌!=◌}
use silverfir.Result.{Result, ok, err, invalid, ◌>>=◌}
use silverfir.Format.{TypeId, is_value_type}
use silverfir.Stream.{Stream, stream_from, read_vi7}

-- `params` and `results` point at the bytes of the type section.
pub record FuncType : Type 0 where
  pub param_count : ℕ
  pub result_count : ℕ
  pub params : List ℕ
  pub results : List ℕ

-- `target_offset` is the bit pattern of an `i32`.
pub record JumpTable : Type 0 where
  pub pc : ℕ
  pub target_offset : ℕ
  pub stack_offset : ℕ
  pub arity : ℕ
  pub next_idx : ℕ

abbrev pub jump_table_idx_invalid : ℕ
jump_table_idx_invalid = 0xffff

abbrev pub linkage_none : ℕ
linkage_none = 0

abbrev pub linkage_imported : ℕ
linkage_imported = 1

abbrev pub linkage_exported : ℕ
linkage_exported = 2

-- A `str` is the list of the bytes that it points at.
pub record ImportPath : Type 0 where
  pub module_name : List ℕ
  pub field_name : List ℕ

-- `local_types_fixed` is the flag `fixed` of the vector. `tr` and `host_func`, which host functions
-- have, are left out.
pub record Func : Type 0 where
  pub fn_type : FuncType
  pub linkage : ℕ
  pub local_count : ℕ
  pub local_types : List TypeId
  pub local_types_fixed : Bool
  pub code : List ℕ
  pub path : Option ImportPath
  pub jt : List JumpTable
  pub stack_size_max : ℕ

-- `is_imported(f->linkage)`
abbrev pub is_imported : Func → Bool
is_imported f = bit_and f.linkage linkage_imported != 0

pub record Limits : Type 0 where
  pub min : ℕ
  pub max : ℕ

pub record Memory : Type 0 where
  pub lim : Limits
  pub linkage : ℕ
  pub path : Option ImportPath

pub record Table : Type 0 where
  pub valtype : TypeId
  pub lim : Limits
  pub linkage : ℕ
  pub path : Option ImportPath

pub record Global : Type 0 where
  pub valtype : TypeId
  pub mut : Bool
  pub expr : List ℕ
  pub linkage : ℕ
  pub path : Option ImportPath

pub record Export : Type 0 where
  pub name : List ℕ
  pub external_kind : ℕ
  pub external_idx : ℕ

-- `elem_mode_none` is the 0 that `vec_resize` writes.
pub data ElemMode : Type 0 where
  elem_mode_none elem_mode_active elem_mode_passive elem_mode_declarative : ElemMode

pub record Element : Type 0 where
  pub mode : ElemMode
  pub tableidx : ℕ
  pub offset_expr : List ℕ
  pub valtype : TypeId
  pub data_len : ℕ
  pub v_funcidx : List ℕ
  pub v_funcidx_fixed : Bool
  pub v_expr : List (List ℕ)
  pub v_expr_fixed : Bool

-- `data`
pub record Segment : Type 0 where
  pub is_active : Bool
  pub memidx : ℕ
  pub offset_expr : List ℕ
  pub bytes : List ℕ

-- The flags `fixed` of a module's vectors, and the capacity of `elements`.
pub record VecFlags : Type 0 where
  pub func_types_fixed : Bool
  pub funcs_fixed : Bool
  pub tables_fixed : Bool
  pub memories_fixed : Bool
  pub globals_fixed : Bool
  pub exports_fixed : Bool
  pub elements_fixed : Bool
  pub elements_capacity : ℕ
  pub segments_fixed : Bool

-- `segments` is `data`; the names, the reference count and the resources of a host are left out.
pub record Module : Type 0 where
  pub wasm_bin : List ℕ
  pub format_version : ℕ
  pub func_types : List FuncType
  pub imported_func_count : ℕ
  pub funcs : List Func
  pub imported_table_count : ℕ
  pub tables : List Table
  pub imported_mem_count : ℕ
  pub memories : List Memory
  pub imported_global_count : ℕ
  pub globals : List Global
  pub exports : List Export
  pub start_funcidx : Option ℕ
  pub elements : List Element
  pub data_count : Option ℕ
  pub segments : List Segment
  pub flags : VecFlags

-- The loop of `parse_types`, which appends one type a round.
unfoldable pub parse_types_loop : ℕ → Stream → Result (List TypeId)
parse_types_loop zero st = ok []
parse_types_loop (suc count) st = do
  (t, st') ← read_vi7 st
  if is_value_type t then (do ts ← parse_types_loop count st'; ok (t ∷ ts)) else err invalid

unfoldable pub parse_types : ℕ → List ℕ → Result (List TypeId)
parse_types zero types = ok []
parse_types (suc count) types = parse_types_loop (suc count) (stream_from types)
