-- ===== src/Format.antt =====
-- src/common/wasm_format.h: the value types. A `type_id` is an `i8`, kept as its bit pattern.
use silverfir.Prelude.{ℕ, Bool, ◌∷◌, [], ◌||◌, ◌==◌, one_of}

abbrev pub TypeId : Type 0
TypeId = ℕ

abbrev pub type_id_i32 : TypeId
type_id_i32 = 0xff

abbrev pub type_id_i64 : TypeId
type_id_i64 = 0xfe

abbrev pub type_id_f32 : TypeId
type_id_f32 = 0xfd

abbrev pub type_id_f64 : TypeId
type_id_f64 = 0xfc

abbrev pub type_id_v128 : TypeId
type_id_v128 = 0xfb

abbrev pub type_id_funcref : TypeId
type_id_funcref = 0xf0

abbrev pub type_id_externref : TypeId
type_id_externref = 0xef

abbrev pub type_id_ref : TypeId
type_id_ref = 0xeb

abbrev pub type_id_func_ : TypeId
type_id_func_ = 0xe0

abbrev pub type_id_struct_ : TypeId
type_id_struct_ = 0xdf

abbrev pub type_id_array_ : TypeId
type_id_array_ = 0xde

abbrev pub type_id_void_ : TypeId
type_id_void_ = 0xc0

abbrev pub type_id_unknown : TypeId
type_id_unknown = 0xc7

unfoldable pub is_num : TypeId → Bool
unfolding one_of
is_num id = one_of id (type_id_i32 ∷ type_id_i64 ∷ type_id_f32 ∷ type_id_f64 ∷ type_id_unknown ∷ [])

unfoldable pub is_vec : TypeId → Bool
is_vec id = id == type_id_v128 || id == type_id_unknown

unfoldable pub is_ref : TypeId → Bool
is_ref id =
    id == type_id_funcref || id == type_id_externref || id == type_id_ref || id == type_id_unknown

unfoldable pub is_value_type : TypeId → Bool
unfolding is_num is_vec is_ref
is_value_type id = is_num id || is_vec id || is_ref id
