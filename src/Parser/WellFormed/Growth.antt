-- ===== src/Parser/WellFormed/Growth.antt =====
-- A well-formed module of src/runtime/module.h stays so where one of its vectors grows.
use silverfir.Prelude.{
  ℕ, suc, ◌≤◌, ◌≡◌, refl, ap, sym, arith, List, [], ◌∷◌, ◌++◌, Option, none, some, All, All-append,
  All-weaken, length, length-append, get_elem?, get_elem-grow, modify, zero,
}
use silverfir.Module.{FuncType, Func, Table, Memory, Global, Export, Element, Module, VecFlags}
use silverfir.Parser.WellFormed.{
  HasTypes, types_of, IsTable, IsMemory, IsGlobal, IsExported, of_function, of_table, of_memory,
  of_global, IsStart, IsElement, ExportedFrom, IsWellFormed,
}

types_of-append : (fs gs : List Func) → types_of (fs ++ gs) ≡ types_of fs ++ types_of gs
types_of-append [] gs = refl
types_of-append (f ∷ fs) gs = ap (λ ts. f.fn_type ∷ ts) (types_of-append fs gs)

IsExported-grow :
    {funcs funcs' tables tables' memories memories' globals globals' : ℕ}
    → funcs ≤ funcs'
    → tables ≤ tables'
    → memories ≤ memories'
    → globals ≤ globals'
    → (e : Export) → IsExported funcs tables memories globals e
    → IsExported funcs' tables' memories' globals' e
IsExported-grow a b c d e (of_function k h) = of_function k (omega arith)
IsExported-grow a b c d e (of_table k h) = of_table k (omega arith)
IsExported-grow a b c d e (of_memory k h) = of_memory k (omega arith)
IsExported-grow a b c d e (of_global k h) = of_global k (omega arith)

IsElement-grow : {n m : ℕ} → n ≤ m → (e : Element) → IsElement n e → IsElement m e
IsElement-grow h e (r, a) = (r, All-weaken (λ i k. omega arith) e.v_funcidx a)

IsStart-grow : (ts us : List FuncType) (o : Option ℕ) → IsStart ts o → IsStart (ts ++ us) o
IsStart-grow ts us none s = tt
IsStart-grow ts us (some i) (ft, e, p, r) = (ft, get_elem-grow ts us i ft e, p, r)

abbrev type_of_found : Option Func → Option FuncType
type_of_found none = none
type_of_found (some f) = some (f.fn_type)

-- The type of a function, in its place.
pub type_at :
    (fs : List Func) (i : ℕ) (f : Func)
    → get_elem? fs i ≡ some f
    → get_elem? (types_of fs) i ≡ some (f.fn_type)
type_at [] i f e = cc
type_at (g ∷ fs) zero f e = ap (λ o. type_of_found o) e
type_at (g ∷ fs) (suc i) f e = type_at fs i f e

abbrev type_or : Func → Option Func → FuncType
type_or g none = g.fn_type
type_or g (some f) = f.fn_type

pub length-types_of : (fs : List Func) → length (types_of fs) ≡ length fs
length-types_of [] = refl
length-types_of (f ∷ fs) = ap suc (length-types_of fs)

-- A function that is replaced by one of the same type.
pub types_of-modify :
    (fs : List Func) (i : ℕ) (f f' : Func)
    → get_elem? fs i ≡ some f
    → f'.fn_type ≡ f.fn_type
    → types_of (modify fs i (λ _. f')) ≡ types_of fs
types_of-modify [] i f f' e h = refl
types_of-modify (g ∷ fs) zero f f' e h = cc (ap (λ o. type_or g o) e)
types_of-modify (g ∷ fs) (suc i) f f' e h =
    ap (λ ts. g.fn_type ∷ ts) (types_of-modify fs i f f' e h)

-- A change that leaves the types alone.
pub types_of-change :
    (g : Func → Func)
    → ((f : Func) → (g f).fn_type ≡ f.fn_type)
    → (fs : List Func) (i : ℕ) → types_of (modify fs i g) ≡ types_of fs
types_of-change g h [] i = refl
types_of-change g h (f ∷ fs) zero = ap (λ t. t ∷ types_of fs) (h f)
types_of-change g h (f ∷ fs) (suc i) = ap (λ ts. f.fn_type ∷ ts) (types_of-change g h fs i)

module _ {m : Module} (w : IsWellFormed m) where
  pub with_flags : (flags : VecFlags) → IsWellFormed (record m { flags = flags })
  with_flags flags = ground arith

  pub add_func :
      (f : Func) → HasTypes f.fn_type → IsWellFormed (record m { funcs = m.funcs ++ (f ∷ []) })
  add_func f h =
      let longer : length m.funcs ≤ length (m.funcs ++ (f ∷ [])) =
        omega (arith, length-append m.funcs (f ∷ [])) in
      record {
        func_types = w.func_types;
        funcs = rw (types_of-append m.funcs (f ∷ [])) (All-append HasTypes _ _ w.funcs (h, tt));
        imported = omega (arith, w.imported, longer);
        tables = w.tables;
        memories = w.memories;
        globals = w.globals;
        exports =
            All-weaken (IsExported-grow longer (omega arith) (omega arith) (omega arith)) m.exports
              w.exports;
        start = rw (types_of-append m.funcs (f ∷ [])) (IsStart-grow _ _ m.start_funcidx w.start);
        elements = All-weaken (IsElement-grow longer) m.elements w.elements;
        segments = w.segments;
      }

  pub add_table :
      (t : Table) → IsTable t → IsWellFormed (record m { tables = m.tables ++ (t ∷ []) })
  add_table t h =
      let longer : length m.tables ≤ length (m.tables ++ (t ∷ [])) =
        omega (arith, length-append m.tables (t ∷ [])) in
      record {
        func_types = w.func_types;
        funcs = w.funcs;
        imported = w.imported;
        tables = All-append IsTable m.tables (t ∷ []) w.tables (h, tt);
        memories = w.memories;
        globals = w.globals;
        exports =
            All-weaken (IsExported-grow (omega arith) longer (omega arith) (omega arith)) m.exports
              w.exports;
        start = w.start;
        elements = w.elements;
        segments = w.segments;
      }

  pub add_memory :
      (mem : Memory)
      → IsMemory mem
      → IsWellFormed (record m { memories = m.memories ++ (mem ∷ []) })
  add_memory mem h =
      let longer : length m.memories ≤ length (m.memories ++ (mem ∷ [])) =
        omega (arith, length-append m.memories (mem ∷ [])) in
      record {
        func_types = w.func_types;
        funcs = w.funcs;
        imported = w.imported;
        tables = w.tables;
        memories = All-append IsMemory m.memories (mem ∷ []) w.memories (h, tt);
        globals = w.globals;
        exports =
            All-weaken (IsExported-grow (omega arith) (omega arith) longer (omega arith)) m.exports
              w.exports;
        start = w.start;
        elements = w.elements;
        segments = w.segments;
      }

  pub add_global :
      (g : Global) → IsGlobal g → IsWellFormed (record m { globals = m.globals ++ (g ∷ []) })
  add_global g h =
      let longer : length m.globals ≤ length (m.globals ++ (g ∷ [])) =
        omega (arith, length-append m.globals (g ∷ [])) in
      record {
        func_types = w.func_types;
        funcs = w.funcs;
        imported = w.imported;
        tables = w.tables;
        memories = w.memories;
        globals = All-append IsGlobal m.globals (g ∷ []) w.globals (h, tt);
        exports =
            All-weaken (IsExported-grow (omega arith) (omega arith) (omega arith) longer) m.exports
              w.exports;
        start = w.start;
        elements = w.elements;
        segments = w.segments;
      }

  -- Functions of the same types, in the same places.
  pub with_funcs :
      (fs : List Func) → types_of fs ≡ types_of m.funcs → IsWellFormed (record m { funcs = fs })
  with_funcs fs e =
      let n : length fs ≡ length m.funcs =
        omega (arith, ap length e, length-types_of fs, length-types_of m.funcs) in
      record {
        func_types = w.func_types;
        funcs = rw e w.funcs;
        imported = rw n w.imported;
        tables = w.tables;
        memories = w.memories;
        globals = w.globals;
        exports = rw n w.exports;
        start = rw e w.start;
        elements = rw n w.elements;
        segments = w.segments;
      }

  pub with_tables :
      (ts : List Table)
      → All IsTable ts
      → length ts ≡ length m.tables
      → IsWellFormed (record m { tables = ts })
  with_tables ts h n = let exports = rw (sym n) at w.exports in ground arith

  pub with_memories :
      (ms : List Memory)
      → All IsMemory ms
      → length ms ≡ length m.memories
      → IsWellFormed (record m { memories = ms })
  with_memories ms h n = let exports = rw (sym n) at w.exports in ground arith

  pub with_globals :
      (gs : List Global)
      → All IsGlobal gs
      → length gs ≡ length m.globals
      → IsWellFormed (record m { globals = gs })
  with_globals gs h n = let exports = rw (sym n) at w.exports in ground arith

  pub add_export :
      (e : Export) → ExportedFrom m e → IsWellFormed (record m { exports = m.exports ++ (e ∷ []) })
  add_export e h =
      let exports = All-append (ExportedFrom m) m.exports (e ∷ []) w.exports (h, tt) in ground arith
