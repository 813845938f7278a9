-- ===== src/Interpreter/Branching.antt =====
-- Branches of src/interpreter/in_place_dt.c over the jump table that src/runtime/validator.c builds.
use silverfir.Prelude.{
  ℕ, zero, suc, ◌+◌, ◌-◌, ◌^◌, ◌≤◌, ◌<◌, ◌≡◌, refl, ap, arith, Bool-cases, inl, inr, ltb, ◌==◌,
  false, if◌then◌else◌, u16, u32, List, [], ◌∷◌, ◌++◌, length, take, drop, some, get_elem?,
  All-get_elem,
}
use silverfir.Result.{ok}
use silverfir.Module.{JumpTable}
use silverfir.Stream.{Stream}
use silverfir.Validator.Context.{CtrlFrame, Context}
use silverfir.Validator.Control.{on_end}
use silverfir.Validator.Targets.{Landed, landing, on_end-landing}
use silverfir.Interpreter.{Instance, Machine, pop, u_u32}
use silverfir.Interpreter.Control.{jump, move_down, exec_br, exec_br_if}

take-drop : (n : ℕ) (xs : List ℕ) → take n xs ++ drop n xs ≡ xs
take-drop zero xs = refl
take-drop (suc n) [] = refl
take-drop (suc n) (x ∷ xs) = ap (λ (t : List ℕ). x ∷ t) (take-drop n xs)

jump-lands :
    (pc offset land : ℕ)
    → pc < 2 ^ 31
    → offset < 2 ^ 32
    → land < 2 ^ 31
    → u32 (pc + offset) ≡ land
    → jump pc offset ≡ ok land
unfolding jump
jump-lands pc offset land near word low sum = elim (Bool-cases (ltb offset (2 ^ 31))) [
  | inl e ↦ let there : pc + offset ≡ land = ground arith in rw (e, there) refl
  | inr e ↦
      let inside : ltb pc (2 ^ 32 - offset) ≡ false = ground arith in
      let there : pc - (2 ^ 32 - offset) ≡ land = ground arith in rw (e, inside, there) refl
]

module _ (inst : Instance) (m : Machine) (tbl : JumpTable)
    (found : get_elem? inst.jt m.next_jt_idx ≡ some tbl)
    (room : tbl.stack_offset + tbl.arity ≤ length m.stack) (land : ℕ) (near : m.pc < 2 ^ 31)
    (word : tbl.target_offset < 2 ^ 32) (low : land < 2 ^ 31)
    (sum : u32 (m.pc + tbl.target_offset) ≡ land) where
  -- Where the position and the offset of the record add up to `land` on 32 bits, a branch with room
  -- for the operands of its record goes to `land` and to the next record, keeps the carried
  -- operands in their order and drops those below them.
  pub exec_br-lands :
      exec_br inst m
      ≡ ok (record m {
        pc = land;
        next_jt_idx = tbl.next_idx;
        stack = take tbl.arity m.stack ++ drop (tbl.stack_offset + tbl.arity) m.stack;
      })
  unfolding exec_br move_down
  exec_br-lands =
      let goes = jump-lands m.pc tbl.target_offset land near word low sum in
      let room' : ltb (length m.stack) (tbl.stack_offset + tbl.arity) ≡ false = ground arith in
      elim (Bool-cases (tbl.stack_offset == 0)) [
        | inl e ↦
            let none_dropped : tbl.stack_offset + tbl.arity ≡ tbl.arity = ground arith in
            rw (found, exec_br, goes, e, none_dropped, take-drop tbl.arity m.stack) refl
        | inr e ↦ rw (found, exec_br, goes, e, room') refl
      ]

-- The record that `on_end` gave its target to, with the index of the next record filled in later,
-- is a branch to where `on_end` wanted it and to that next record, which keeps the carried operands
-- in their order and drops those below them. This is for a machine at the position of the record, for
-- positions below 2^31, and for fewer than 32767 dropped operands, which the code asserts.
pub exec_br-on_end :
    (imm : Stream) (ctx ctx' : Context) (cf : CtrlFrame) (below : List CtrlFrame) (k next : ℕ)
    (slot : JumpTable) (inst : Instance) (m : Machine)
    → ctx.ctrl_stack ≡ cf ∷ below
    → on_end imm ctx ≡ ok ctx'
    → get_elem? cf.pending_jt_slots k ≡ some m.next_jt_idx
    → get_elem? ctx'.jt m.next_jt_idx ≡ some slot
    → get_elem? inst.jt m.next_jt_idx ≡ some (record slot { next_idx = next })
    → m.pc ≡ slot.pc
    → slot.stack_offset + slot.arity ≤ length m.stack
    → slot.stack_offset < 32767
    → m.pc < 2 ^ 31
    → slot.target_offset < 2 ^ 32
    → landing cf (u32 imm.p) < 2 ^ 31
    → exec_br inst m
      ≡ ok (record m {
        pc = landing cf (u32 imm.p);
        next_jt_idx = next;
        stack = take slot.arity m.stack ++ drop (slot.stack_offset + slot.arity) m.stack;
      })
exec_br-on_end imm ctx ctx' cf below k next slot inst m top ended pending at found here room few
      near word low =
    let all = on_end-landing imm ctx ctx' cf below top ended in
    let lands =
      All-get_elem (Landed (landing cf (u32 imm.p)) ctx'.jt) cf.pending_jt_slots k m.next_jt_idx all
        pending slot at in
    exec_br-lands inst m (record slot { next_idx = next }) found room (landing cf (u32 imm.p)) near
      word low (rw here lands)

-- A conditional branch takes one operand off; on 0 it goes on with the next instruction and record.
pub exec_br_if-cases :
    (inst : Instance) (m : Machine) (c : ℕ) (rest : List ℕ)
    → m.stack ≡ c ∷ rest
    → exec_br_if inst m ≡ (
        if u_u32 c == 0
        then ok (record m { pc = m.pc + 1; next_jt_idx = u16 (m.next_jt_idx + 1); stack = rest })
        else exec_br inst (record m { stack = rest }))
unfolding exec_br_if pop
exec_br_if-cases inst m c rest e = rw (e, exec_br_if, pop) (ground arith)
