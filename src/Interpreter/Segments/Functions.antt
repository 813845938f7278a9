-- ===== src/Interpreter/Segments/Functions.antt =====
-- `table_init` of src/interpreter/in_place_dt.c on a segment of function indices, which the parser has
-- compared with the number of functions.
use silverfir.Prelude.{
  ℕ, zero, suc, ◌+◌, ◌≤◌, ◌<◌, ◌≡◌, refl, ap, sym, Bool, false, ltb, ◌||◌, ◌==◌, if◌then◌else◌,
  List, [], ◌∷◌, length, All, get_or, get_elem?, some, arith, modify, length-modify, Bool-cases,
  inl, inr, get_elem-lt,
}
use silverfir.Result.{ok, err, general}
use silverfir.Module.{Element}
use silverfir.Stream.Unchecked.{read_vu32_unchecked}
use silverfir.Interpreter.{Instance, Machine, pop, u_u32, read_imm}
use silverfir.Interpreter.Bulk.{pop_three, splice}
use silverfir.Interpreter.Bytes.{read_at-found, read_at-inside, write_at-inside}
use silverfir.Interpreter.Filling.{splice-modify, splice_nothing}
use silverfir.Interpreter.Segments.{nullfidx, init_funcs, init_elements, exec_table_init}

-- The references to `size` functions from the index at `src` on.
unfoldable pub refs_of : List ℕ → List ℕ → ℕ → ℕ → List ℕ
refs_of f_addrs v_funcidx zero src = []
refs_of f_addrs v_funcidx (suc size) src =
    get_or f_addrs (get_or v_funcidx src 0) 0 ∷ refs_of f_addrs v_funcidx size (suc src)

All-at : (P : ℕ → Type 0) (xs : List ℕ) (i : ℕ) → i < length xs → All P xs → P (get_or xs i 0)
All-at P [] i h a = absurd (omega arith)
All-at P (x ∷ xs) zero h a = a.0
All-at P (x ∷ xs) (suc i) h a = All-at P xs i (omega arith) a.1

module _ (f_addrs v_funcidx : List ℕ) (known : All (λ i. i < length f_addrs) v_funcidx)
    (few : length f_addrs ≤ nullfidx) where
  init_funcs-inside :
      (size src dst : ℕ) (tdata : List ℕ)
      → src + size ≤ length v_funcidx
      → dst + size ≤ length tdata
      → init_funcs f_addrs v_funcidx size src dst tdata
        ≡ ok (splice tdata dst (refs_of f_addrs v_funcidx size src))
  unfolding init_funcs refs_of
  init_funcs-inside zero src dst tdata from to = ap ok (sym (splice_nothing tdata dst))
  init_funcs-inside (suc size) src dst tdata from to =
      let f_idx = get_or v_funcidx src 0 in
      let fref = get_or f_addrs f_idx 0 in
      let below = All-at (λ i. i < length f_addrs) v_funcidx src (omega arith) known in
      let named : (f_idx == nullfidx) ≡ false = ground arith in
      let same = length-modify tdata dst (λ _. fref) in
      rw
        (
          read_at-inside v_funcidx src (omega arith),
          named,
          read_at-inside f_addrs f_idx below,
          write_at-inside tdata dst fref (omega arith),
          sym (
              splice-modify tdata dst fref (refs_of f_addrs v_funcidx size (suc src))
                (omega arith)),
        )
        (init_funcs-inside size (suc src) (suc dst) (modify tdata dst (λ _. fref)) (omega arith)
          (omega arith))

-- The immediates: the segment, then the table.
abbrev pub elem_of : Instance → Machine → ℕ
elem_of inst m = (read_vu32_unchecked inst.code m.pc).0

abbrev pub table_behind : Instance → Machine → ℕ × ℕ
table_behind inst m = read_vu32_unchecked inst.code (read_vu32_unchecked inst.code m.pc).1

module _ (inst : Instance) (m : Machine) (size src dst : ℕ) (rest : List ℕ) (t_addr : ℕ)
    (tdata : List ℕ) (elem : Element) (dropped : Bool)
    (linked : get_elem? inst.t_addrs (table_behind inst m).0 ≡ some t_addr)
    (stored : get_elem? m.tables t_addr ≡ some tdata)
    (segment : get_elem? inst.mod'.elements (elem_of inst m) ≡ some elem)
    (mark : get_elem? m.dropped_elements (elem_of inst m) ≡ some dropped)
    (known : All (λ i. i < length inst.f_addrs) elem.v_funcidx)
    (few : length inst.f_addrs ≤ nullfidx) (full : elem.data_len ≤ length elem.v_funcidx) where
  -- For a segment whose function indices are known to the instance, `table_init` fails where source or
  -- destination is out of range, and, for a size that is not 0, where the segment has been dropped;
  -- else it puts the references to the functions at the destination. It stays within its vectors.
  pub exec_table_init-functions :
      exec_table_init inst (record m { stack = size ∷ src ∷ dst ∷ rest }) ≡ (
        if ltb elem.data_len (u_u32 src + u_u32 size) || ltb (length tdata) (u_u32 dst + u_u32 size)
        then err general
        else if u_u32 size == 0
        then ok (record m { pc = (table_behind inst m).1; stack = rest })
        else if dropped
        then err general
        else ok (record m {
          pc = (table_behind inst m).1;
          stack = rest;
          tables = modify m.tables t_addr (λ _.
              splice tdata
                (u_u32 dst)
                (refs_of inst.f_addrs elem.v_funcidx (u_u32 size) (u_u32 src)));
        }))
  unfolding exec_table_init init_elements pop_three pop read_imm
  exec_table_init-functions =
      let at_addr = read_at-found inst.t_addrs (table_behind inst m).0 t_addr linked in
      let at_table = read_at-found m.tables t_addr tdata stored in
      let at_elem = read_at-found inst.mod'.elements (elem_of inst m) elem segment in
      let at_mark = read_at-found m.dropped_elements (elem_of inst m) dropped mark in
      elim (Bool-cases (
        ltb elem.data_len (u_u32 src + u_u32 size)
        || ltb (length tdata) (u_u32 dst + u_u32 size))) [
          | inl e ↦ rw (at_addr, at_elem, at_table, e) refl
          | inr e ↦ elim (Bool-cases (u_u32 size == 0)) [
            | inl none_moved ↦ rw (at_addr, at_elem, at_table, e, none_moved) refl
            | inr moved ↦ elim (Bool-cases dropped) [
              | inl gone ↦ rw (at_addr, at_elem, at_table, e, moved, at_mark, gone) refl
              | inr kept ↦
                  let below = get_elem-lt m.tables t_addr tdata stored in
                  let from : u_u32 src + u_u32 size ≤ elem.data_len = ground arith in
                  let to : u_u32 dst + u_u32 size ≤ length tdata = ground arith in
                  let some_size : 0 < u_u32 size = ground arith in
                  let some_index : (length elem.v_funcidx == 0) ≡ false = ground arith in
                  let moves =
                    init_funcs-inside inst.f_addrs elem.v_funcidx known few (u_u32 size) (u_u32 src)
                      (u_u32 dst) tdata (omega arith) to in
                  rw
                    (
                      at_addr,
                      at_elem,
                      at_table,
                      e,
                      moved,
                      at_mark,
                      kept,
                      some_index,
                      moves,
                      write_at-inside m.tables t_addr
                          (splice tdata (u_u32 dst)
                            (refs_of inst.f_addrs elem.v_funcidx (u_u32 size) (u_u32 src)))
                          below,
                    )
                    refl
            ]
          ]
        ]
