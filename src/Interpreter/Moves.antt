-- ===== src/Interpreter/Moves.antt =====
-- `memory_copy`, `data_drop` and `memory_init` of src/interpreter/in_place_dt.c.
use silverfir.Prelude.{
  ℕ, ◌+◌, ◌≤◌, ◌<◌, ◌≡◌, refl, ◌∙◌, ◌⊎◌, inl, inr, true, false, ltb, leb, ◌||◌, ◌==◌, List, ◌∷◌,
  some, length, get_elem?, get_or, take, drop, modify, arith, length-drop, Bool-cases,
  get_elem-modify-same, get_elem-in,
}
use silverfir.Result.{ok, err, general}
use silverfir.Module.{Segment}
use silverfir.Stream.Unchecked.{read_vu32_unchecked}
use silverfir.Interpreter.{Instance, Machine, pop, u_u32, read_imm, write_at}
use silverfir.Interpreter.Bulk.{
  pop_three, splice, exec_memory_copy, exec_memory_init, exec_data_drop,
}
use silverfir.Interpreter.Bytes.{read_at-found}
use silverfir.Interpreter.Filling.{
  length-take, get_or-drop, get_or-take, length-splice, get_or-splice-inside, get_or-splice-outside,
}

module _ (m : Machine) (size src dst : ℕ) (rest : List ℕ) (bytes : List ℕ) where
  -- Where source and destination fit the memory, `memory_copy` leaves its size and every byte j outside
  -- the destination, and byte i of the destination is what byte i of the source was before, also
  -- where the two overlap.
  pub exec_memory_copy-moves :
      (i j : ℕ)
      → u_u32 src + u_u32 size ≤ length bytes
      → u_u32 dst + u_u32 size ≤ length bytes
      → i < u_u32 size
      → (j < u_u32 dst) ⊎ (u_u32 dst + u_u32 size ≤ j)
      → (bytes' : List ℕ) × (exec_memory_copy
            (record m { stack = size ∷ src ∷ dst ∷ rest; mem0 = some bytes })
          ≡ ok (record m { pc = m.pc + 2; stack = rest; mem0 = some bytes' }))
        × (length bytes' ≡ length bytes)
        × (get_or bytes' (u_u32 dst + i) 0 ≡ get_or bytes (u_u32 src + i) 0)
        × (get_or bytes' j 0 ≡ get_or bytes j 0)
  unfolding exec_memory_copy pop_three pop
  exec_memory_copy-moves i j from to inside outside =
      let moved = take (u_u32 size) (drop (u_u32 src) bytes) in
      let left = length-drop (u_u32 src) bytes in
      let wide : length moved ≡ u_u32 size =
        length-take (u_u32 size) (drop (u_u32 src) bytes) (omega arith) in
      let e1 : ltb (length bytes) (u_u32 src + u_u32 size) ≡ false = ground arith in
      let e2 : ltb (length bytes) (u_u32 dst + u_u32 size) ≡ false = ground arith in
      let e3 : (u_u32 size == 0) ≡ false = ground arith in
      let fits : u_u32 dst + length moved ≤ length bytes = omega arith in
      (
        splice bytes (u_u32 dst) moved,
        rw (e1, e2, e3) refl,
        length-splice bytes (u_u32 dst) moved fits,
        get_or-splice-inside bytes (u_u32 dst) moved fits i (omega arith)
            ∙ get_or-take (u_u32 size) (drop (u_u32 src) bytes) i inside
            ∙ get_or-drop (u_u32 src) bytes i,
        get_or-splice-outside bytes (u_u32 dst) moved fits j
            (elim outside [ inl a ↦ inl a | inr a ↦ inr (omega arith) ]),
      )

  -- Else it fails, before a byte is moved.
  pub exec_memory_copy-traps :
      (length bytes < u_u32 src + u_u32 size) ⊎ (length bytes < u_u32 dst + u_u32 size)
      → exec_memory_copy (record m { stack = size ∷ src ∷ dst ∷ rest; mem0 = some bytes })
        ≡ err general
  unfolding exec_memory_copy pop_three pop
  exec_memory_copy-traps h = elim h [
    | inl a ↦ let e : ltb (length bytes) (u_u32 src + u_u32 size) ≡ true = ground arith in rw e refl
    | inr a ↦
        let e : ltb (length bytes) (u_u32 dst + u_u32 size) ≡ true = ground arith in
        elim (Bool-cases (ltb (length bytes) (u_u32 src + u_u32 size))) [
          | inl b ↦ rw b refl
          | inr b ↦ rw (b, e) refl
        ]
  ]

-- The index of the segment that the immediate names.
abbrev pub segment_of : Instance → Machine → ℕ
segment_of inst m = (read_vu32_unchecked inst.code m.pc).0

drops :
    (inst : Instance) (m m' : Machine)
    → exec_data_drop inst m ≡ ok m'
    → get_elem? m'.dropped_data (segment_of inst m) ≡ some true
unfolding exec_data_drop write_at read_imm
drops inst m m' e = elim (Bool-cases (leb (length m.dropped_data) (segment_of inst m))) [
  | inl b ↦ let outside = rw b at e in cc
  | inr b ↦
      let written = rw b at e in
      let (x, found) = get_elem-in m.dropped_data (segment_of inst m) (ground arith) in
      let same : m'.dropped_data ≡ modify m.dropped_data (segment_of inst m) (λ _. true) = cc in
      rw same (get_elem-modify-same (λ _. true) m.dropped_data (segment_of inst m) x found)
]

module _ (inst : Instance) (m : Machine) (size src dst : ℕ) (rest : List ℕ) (bytes : List ℕ)
    (d : Segment) where
  -- Once `data_drop` has run, `memory_init` of a size that is not 0 from the same segment fails, in
  -- whatever state it runs whose marks of dropped segments are still those.
  pub exec_memory_init-exec_data_drop :
      (before after : Machine)
      → exec_data_drop inst before ≡ ok after
      → m.dropped_data ≡ after.dropped_data
      → segment_of inst m ≡ segment_of inst before
      → get_elem? inst.mod'.segments (segment_of inst m) ≡ some d
      → 0 < u_u32 size
      → exec_memory_init inst (record m { stack = size ∷ src ∷ dst ∷ rest; mem0 = some bytes })
        ≡ err general
  unfolding exec_memory_init pop_three pop read_imm
  exec_memory_init-exec_data_drop before after dropped kept same there sized =
      let gone = drops inst before after dropped in
      let marked : get_elem? m.dropped_data (segment_of inst m) ≡ some true =
        rw (kept, same) gone in
      let at_segment = read_at-found inst.mod'.segments (segment_of inst m) d there in
      let at_mark = read_at-found m.dropped_data (segment_of inst m) true marked in
      let e3 : (u_u32 size == 0) ≡ false = ground arith in
      elim (Bool-cases (
        ltb (length d.bytes) (u_u32 src + u_u32 size)
        || ltb (length bytes) (u_u32 dst + u_u32 size))) [
          | inl e ↦ rw (at_segment, e) refl
          | inr e ↦ rw (at_segment, e, e3, at_mark) refl
        ]
