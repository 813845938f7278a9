-- ===== src/Decoder/Progress/Loop.antt =====
-- `decode_function` ends, whatever the callbacks do.
use silverfir.Prelude.{
  ℕ, zero, suc, ◌+◌, ◌<◌, ◌≡◌, ◌≢◌, arith, Bool, true, false, none, List, length, inl, inr,
}
use silverfir.Result.{Result, ok, err, fault, Result-cases}
use silverfir.Result.Post.{Post, returns, throws, faults, ◌⟫◌, of_ok, Post-with}
use silverfir.Stream.{Stream, IsValid, stream_from, read_u8}
use silverfir.Stream.Moves.{IsAhead, IsAhead-from, read_u8-Post}
use silverfir.Module.{Func, Module}
use silverfir.Decoder.Callbacks.{Callbacks}
use silverfir.Decoder.Contract.{Keeps}
use silverfir.Decoder.Loop.{decode_turn, decode_loop, decode_function}
use silverfir.Decoder.Progress.Control.{IsBadImm, decode_op-Onward}

abbrev pub Turned : {S : Type 0} → (S → Type 0) → Stream → Bool × Stream × S → Type 0
Turned J code (last, pc, s) = IsAhead code pc × J s

module _ {S : Type 0} {I J : S → Type 0} {B : Stream → Type 0} {F : Type 0} (cb : Callbacks S)
    (k : Keeps I J B F cb) (mod' : Module) where
  -- A turn of the loop takes the opcode's byte at least.
  pub decode_turn-Turned :
      (code : Stream) (s : S)
      → ((opcode : ℕ) (pc : Stream)
          → read_u8 code ≡ ok (opcode, pc)
          → IsBadImm B mod' opcode pc
          → F)
      → I s
      → Post (Turned J code) F (decode_turn cb mod' code s)
  unfolding decode_turn
  decode_turn-Turned code s bad i =
      Post-with (read_u8 code) (read_u8-Post code) ⟫ λ (opcode, pc) (a, e).
      k.on_opcode opcode pc s i ⟫ λ s1 i1.
      decode_op-Onward cb k mod' opcode pc s1 (bad opcode pc e) (rw (← a.same) at a.within) i1
      ⟫ λ (pc', s2) o. returns (IsAhead-from a o.0, o.1)

start_IsValid : (bytes : List ℕ) → IsValid (stream_from bytes)
unfolding stream_from
start_IsValid bytes = omega arith

start_fuel :
    (bytes : List ℕ) → length (stream_from bytes).s < length bytes + 1 + (stream_from bytes).p
unfolding stream_from
start_fuel bytes = omega arith

abbrev Anything : {S : Type 0} → S → Type 0
Anything s = Unit

trivially : {A : Type 0} (r : Result A) → Post (λ _. Unit) Unit r
trivially (ok a) = returns tt
trivially (err e) = throws
trivially fault = faults tt

-- Every table of callbacks keeps the contract that asks for nothing.
Keeps-nothing : {S : Type 0} (cb : Callbacks S) → Keeps Anything Anything (λ _. Unit) Unit cb
Keeps-nothing cb = record {
  on_opcode = λ a b s i. trivially _;
  on_unreachable = λ a b s i. trivially _;
  on_nop = λ a b s i. trivially _;
  on_block = λ a b c s i. trivially _;
  on_else = λ a b s i. trivially _;
  on_end = λ a b s i. trivially _;
  on_br_or_if = λ a b c s i. trivially _;
  on_br_table = λ a b s i. trivially _;
  on_return = λ a b s i. trivially _;
  on_call = λ a b s i. trivially _;
  on_call_indirect = λ a b c s i. trivially _;
  on_drop = λ a b s i. trivially _;
  on_select = λ a b s i. trivially _;
  on_select_t = λ a b c s i. trivially _;
  on_local_get = λ a b s i. trivially _;
  on_local_set = λ a b s i. trivially _;
  on_local_tee = λ a b s i. trivially _;
  on_global_get = λ a b s i. trivially _;
  on_global_set = λ a b s i. trivially _;
  on_table_get = λ a b s i. trivially _;
  on_table_set = λ a b s i. trivially _;
  on_memory_load_store = λ a b c d s i. trivially _;
  on_memory_size = λ a b s i. trivially _;
  on_memory_grow = λ a b s i. trivially _;
  on_i32_const = λ a b s i. trivially _;
  on_i64_const = λ a b s i. trivially _;
  on_f32_const = λ a b s i. trivially _;
  on_f64_const = λ a b s i. trivially _;
  on_iunop = λ a b s i. trivially _;
  on_funop = λ a b s i. trivially _;
  on_ibinop = λ a b s i. trivially _;
  on_fbinop = λ a b s i. trivially _;
  on_itestop = λ a b s i. trivially _;
  on_irelop = λ a b s i. trivially _;
  on_frelop = λ a b s i. trivially _;
  on_wrapop = λ a b s i. trivially _;
  on_truncop = λ a b s i. trivially _;
  on_convertop = λ a b s i. trivially _;
  on_rankop = λ a b s i. trivially _;
  on_reinterpretop = λ a b s i. trivially _;
  on_extendop = λ a b s i. trivially _;
  on_ref_null = λ a b c s i. trivially _;
  on_ref_is_null = λ a b s i. trivially _;
  on_ref_func = λ a b s i. trivially _;
  on_opcode_fc = λ a b s i. trivially _;
  on_trunc_sat = λ a b s i. trivially _;
  on_memory_init = λ a b s i. trivially _;
  on_memory_copy = λ a b s i. trivially _;
  on_memory_fill = λ a b s i. trivially _;
  on_data_drop = λ a b s i. trivially _;
  on_table_init = λ a b c s i. trivially _;
  on_elem_drop = λ a b s i. trivially _;
  on_table_copy = λ a b c s i. trivially _;
  on_table_grow = λ a b s i. trivially _;
  on_table_size = λ a b s i. trivially _;
  on_table_fill = λ a b s i. trivially _;
  on_opcode_fd = λ a b s i. trivially _;
}

module _ {S : Type 0} (cb : Callbacks S) (mod' : Module) where
  turn-IsAhead :
      (code : Stream) (s : S) {last : Bool} {pc : Stream} {s' : S}
      → decode_turn cb mod' code s ≡ ok (last, pc, s')
      → IsAhead code pc
  turn-IsAhead code s e =
      (of_ok _ (decode_turn-Turned cb (Keeps-nothing cb) mod' code s (λ b pc e f. tt) tt) e).0

  -- The fuel counts the bytes that are left, and one turn more.
  decode_loop-ne-none :
      (fuel : ℕ) (code : Stream) (s : S)
      → IsValid code
      → length code.s < fuel + code.p
      → decode_loop cb mod' fuel code s ≢ none
  unfolding decode_loop
  decode_loop-ne-none zero code s v h = absurd (omega arith)
  decode_loop-ne-none (suc fuel) code s v h = elim (Result-cases (decode_turn cb mod' code s)) [
    | inl ((true, pc, s'), e) ↦ rw (e, decode_loop) (λ p. cc)
    | inl ((false, pc, s'), e) ↦
        let a = turn-IsAhead code s e in
        rw (e, decode_loop)
          (decode_loop-ne-none fuel pc s' (rw a.same a.within) (rw a.same (omega (arith, a.ahead))))
    | inr (inl (x, e)) ↦ rw (e, decode_loop) (λ p. cc)
    | inr (inr e) ↦ rw (e, decode_loop) (λ p. cc)
  ]

  -- The loop of `decode_function` ends on every function and for every table of callbacks.
  pub decode_function-ne-none : (f : Func) (s : S) → decode_function cb mod' f s ≢ none
  unfolding decode_function
  decode_function-ne-none f s = elim (Result-cases (cb.on_decode_begin s)) [
    | inl (s', e) ↦
        rw (e, decode_function)
          (decode_loop-ne-none (length f.code + 1) (stream_from f.code) s' (start_IsValid f.code)
            (start_fuel f.code))
    | inr (inl (x, e)) ↦ rw (e, decode_function) (λ p. cc)
    | inr (inr e) ↦ rw (e, decode_function) (λ p. cc)
  ]
