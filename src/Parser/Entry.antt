-- ===== src/Parser/Entry.antt =====
-- The parser of src/runtime/parser.c and the validator of src/runtime/validator.c together: what the
-- parser accepts, the validator can enter.
use silverfir.Prelude.{
  ◌≡◌, ◌≤◌, ◌+◌, ◌∙◌, refl, ap, arith, zero, suc, ◌^◌, ◌<◌, Bool, false, List, [], ◌∷◌, ◌++◌, ℕ,
  length, length-append, some, get_elem?, All-get_elem,
}
use silverfir.Result.{ok}
use silverfir.Result.Post.{Post, returns, throws, of_ok, Post-if, ◌⟫◌}
use silverfir.Format.{TypeId, is_value_type}
use silverfir.Stream.{Stream, stream_from}
use silverfir.Stream.Moves.{read_vi7-Post}
use silverfir.Module.{FuncType, Func, Module, is_imported, parse_types_loop, parse_types}
use silverfir.Parser.Binary.{module_init}
use silverfir.Parser.WellFormed.{HasTypes, types_of}
use silverfir.Parser.WellFormed.Growth.{type_at}
use silverfir.Parser.WellFormed.Sections.{module_init-IsWellFormed}
use silverfir.Parser.Locals.Sections.{module_init-locals_of}
use silverfir.Validator.Context.{BlockType, bt_func, Context, push_val, push_vals, push_ctrl}
use silverfir.Validator.Control.{on_decode_begin}
use silverfir.Validator.Callbacks.{start_context}

-- As many types are read back as are asked for.
parse_types_loop-length :
    (count : ℕ) (st : Stream) → Post (λ ts. length ts ≡ count) Unit (parse_types_loop count st)
unfolding parse_types_loop
parse_types_loop-length zero st = returns refl
parse_types_loop-length (suc count) st = read_vi7-Post {F = Unit} st ⟫ λ (t, st') a.
    Post-if (is_value_type t) _ _
      (λ _. parse_types_loop-length count st' ⟫ λ ts n. returns (ap suc n)) (λ _. throws)

parse_types-length :
    (count : ℕ) (bytes : List ℕ) → Post (λ ts. length ts ≡ count) Unit (parse_types count bytes)
unfolding parse_types
parse_types-length zero bytes = returns refl
parse_types-length (suc count) bytes = parse_types_loop-length (suc count) (stream_from bytes)

push_vals-total :
    (ts : List TypeId) (ctx : Context)
    → (ctx' : Context) × (push_vals ts ctx ≡ ok ctx') × (ctx'.locals ≡ ctx.locals)
unfolding push_vals push_val
push_vals-total [] ctx = (ctx, refl, refl)
push_vals-total (t ∷ ts) ctx = push_vals-total ts _

push_ctrl-total :
    (bt : BlockType) (ft : FuncType) (ctx : Context)
    → HasTypes ft
    → (ctx' : Context) × (push_ctrl bt ft ctx ≡ ok ctx') × (ctx'.locals ≡ ctx.locals)
unfolding push_ctrl
push_ctrl-total bt ft ctx h =
    let (_, params, ep) = h.params in
    let (_, results, er) = h.results in rw (ep, er) (push_vals-total params _)

-- In a module that `module_init` accepts, whatever its bytes, the validation of a function that is not
-- imported and has fewer than 2^32 parameters and locals can be entered: `on_decode_begin` reads the
-- types of the function, pushes its frame and does not fail, and both of its assertions on
-- `local_count` hold: it is the number of the local variables that are set up, and at least that of
-- the parameters.
pub module_init-on_decode_begin :
    (is_valid_utf8 : List ℕ → Bool) (bin : List ℕ) (m : Module) (i : ℕ) (f : Func)
    → module_init is_valid_utf8 bin ≡ ok m
    → get_elem? m.funcs i ≡ some f
    → is_imported f ≡ false
    → f.fn_type.param_count + length f.local_types < 2 ^ 32
    → (f.fn_type.param_count ≤ f.local_count)
      × (ctx : Context) × (on_decode_begin (start_context m f) ≡ ok ctx)
      × (length ctx.locals ≡ f.local_count)
unfolding on_decode_begin
module_init-on_decode_begin is_valid_utf8 bin m i f e found own fits =
    let w = module_init-IsWellFormed is_valid_utf8 bin m e in
    let whole = module_init-locals_of is_valid_utf8 bin m i f e found own fits in
    let h =
      All-get_elem HasTypes (types_of m.funcs) i f.fn_type w.funcs (type_at m.funcs i f found) in
    let (_, params, ep) = h.params in
    let n = of_ok _ (parse_types-length f.fn_type.param_count f.fn_type.params) ep in
    let locals = record (start_context m f) { locals = [] ++ (params ++ f.local_types) } in
    let (ctx, r, same) = push_ctrl-total bt_func f.fn_type locals h in
    (
      omega (arith, whole),
      record ctx { val_stack = [] },
      rw (ep, r) refl,
      ap length same ∙ length-append params f.local_types ∙ rw (n, whole) refl,
    )
