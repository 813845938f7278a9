-- ===== src/Decoder/BlockType.antt =====
-- src/common/op_decoder.c: the type of a block.
pub mod Domain
use silverfir.Prelude.{ℕ, ◌-◌, List, [], ◌∷◌, none, some, get_elem?, ltb, ◌==◌, if◌then◌else◌}
use silverfir.Result.{Result, ok, err, fault, malformed, ◌>>=◌}
use silverfir.Format.{TypeId, type_id_externref, type_id_void_, is_value_type}
use silverfir.Stream.{Stream, read_vi7}
use silverfir.Module.{FuncType, Module}

abbrev pub no_types : FuncType
no_types = record { param_count = 0; result_count = 0; params = []; results = [] }

abbrev pub one_result : ℕ → FuncType
one_result byte = record { param_count = 0; result_count = 1; params = []; results = byte ∷ [] }

-- `s_block_types`, from `externref` to `i32`.
abbrev pub block_types : List FuncType
block_types =
    one_result 0x6f
    ∷ one_result 0x70
    ∷ no_types
    ∷ no_types
    ∷ no_types
    ∷ no_types
    ∷ no_types
    ∷ no_types
    ∷ no_types
    ∷ no_types
    ∷ no_types
    ∷ no_types
    ∷ one_result 0x7b
    ∷ one_result 0x7c
    ∷ one_result 0x7d
    ∷ one_result 0x7e
    ∷ one_result 0x7f
    ∷ []

-- `*to_func_type(id)`. An identifier below `externref` gives a negative index.
unfoldable pub to_func_type : TypeId → Result FuncType
to_func_type id =
    if ltb id type_id_externref
    then fault
    else elim (get_elem? block_types (id - type_id_externref)) [ none ↦ fault | some ft ↦ ok ft ]

-- The type that the byte behind the opcode names.
unfoldable pub block_func_type : TypeId → Module → Result FuncType
unfolding to_func_type
block_func_type blocktype mod' =
    if blocktype == type_id_void_
    then ok no_types
    else if is_value_type blocktype
    then to_func_type blocktype
    else if ltb blocktype 0x80
    then elim (get_elem? mod'.func_types blocktype) [ none ↦ err malformed | some ft ↦ ok ft ]
    else err malformed

unfoldable pub get_blocktype : Stream → Module → Result (FuncType × Stream)
get_blocktype st mod' = do
  (blocktype, st') ← read_vi7 st
  ft ← block_func_type blocktype mod'
  ok (ft, st')
