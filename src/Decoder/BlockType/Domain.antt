-- ===== src/Decoder/BlockType/Domain.antt =====
-- For which block types the lookup of src/common/op_decoder.c leaves its array.
use silverfir.Prelude.{ℕ, ◌≡◌, ◌≢◌, ◌⊎◌, ◌↔◌, inl, inr, refl, arith, [], ◌∷◌, true, one_of}
use silverfir.Result.{ok, fault}
use silverfir.Format.{type_id_ref, type_id_unknown, is_num, is_vec, is_ref, is_value_type}
use silverfir.Module.{FuncType, Module, parse_types_loop, parse_types}
use silverfir.Stream.{stream_from, read_vi7}
use silverfir.Decoder.BlockType.{to_func_type, block_func_type}

module _ (b : ℕ) (mod' : Module) where
  faults_from : block_func_type b mod' ≡ fault → (b ≡ type_id_ref) ⊎ (b ≡ type_id_unknown)
  unfolding block_func_type to_func_type is_value_type is_num is_vec is_ref one_of
  faults_from e = ground arith

  faults_to : (b ≡ type_id_ref) ⊎ (b ≡ type_id_unknown) → block_func_type b mod' ≡ fault
  unfolding block_func_type to_func_type is_value_type is_num is_vec is_ref one_of
  faults_to h = ground arith

-- The lookup of a block type reads in front of `s_block_types` exactly for the bytes of `ref` and
-- of `unknown`, which `is_value_type` lets through.
pub block_func_type-fault :
    (b : ℕ) (mod' : Module)
    → (block_func_type b mod' ≡ fault) ↔ ((b ≡ type_id_ref) ⊎ (b ≡ type_id_unknown))
block_func_type-fault b mod' = (faults_from b mod', faults_to b mod')

value_type_cases :
    (b : ℕ)
    → is_value_type b ≡ true
    → b ≢ type_id_ref
    → b ≢ type_id_unknown
    → (b ≡ 0xff) ⊎ (b ≡ 0xfe) ⊎ (b ≡ 0xfd) ⊎ (b ≡ 0xfc) ⊎ (b ≡ 0xfb) ⊎ (b ≡ 0xf0) ⊎ (b ≡ 0xef)
unfolding is_value_type is_num is_vec is_ref one_of
value_type_cases b h n1 n2 = ground arith

-- For any other value type the lookup gives the function type without parameters whose one result
-- `parse_types` reads back as that value type.
pub block_func_type-parse_types :
    (b : ℕ) (mod' : Module)
    → is_value_type b ≡ true
    → b ≢ type_id_ref
    → b ≢ type_id_unknown
    → (ft : FuncType) × (block_func_type b mod' ≡ ok ft)
      × (parse_types ft.param_count ft.params ≡ ok [])
      × (parse_types ft.result_count ft.results ≡ ok (b ∷ []))
unfolding block_func_type to_func_type is_value_type is_num is_vec is_ref one_of parse_types
    parse_types_loop stream_from read_vi7
block_func_type-parse_types b mod' h n1 n2 = elim (value_type_cases b h n1 n2) [
  | inl e ↦ rw e (_, refl, refl, refl)
  | inr (inl e) ↦ rw e (_, refl, refl, refl)
  | inr (inr (inl e)) ↦ rw e (_, refl, refl, refl)
  | inr (inr (inr (inl e))) ↦ rw e (_, refl, refl, refl)
  | inr (inr (inr (inr (inl e)))) ↦ rw e (_, refl, refl, refl)
  | inr (inr (inr (inr (inr (inl e))))) ↦ rw e (_, refl, refl, refl)
  | inr (inr (inr (inr (inr (inr e))))) ↦ rw e (_, refl, refl, refl)
]
