-- ===== src/Prelude/Lookup.antt =====
-- Lists at an index: what is found, and properties of all elements.
use Prim.Native.Nat.{ℕ, zero, suc, ◌≤◌, ◌<◌}
use mathlib.Core.Path.{◌≡◌, refl, ap, subst}
use mathlib.Core.Logic.{◌≢◌, ◌⊎◌, inl, inr}
use mathlib.Core.List.{List, [], ◌∷◌, ◌++◌}
use mathlib.Core.Option.{Option, none, some}
use native.Mathlib.Omega.{arith}
use silverfir.Prelude.Lists.{length, get_elem?, modify, All}

abbrev head_or : {A : Type 0} → A → Option A → A
head_or d none = d
head_or d (some x) = x

module _ {A : Type 0} (P : A → Type 0) where
  pub All-modify :
      (xs : List A) (i : ℕ) (g : A → A)
      → ((x : A) → P x → P (g x))
      → All P xs
      → All P (modify xs i g)
  All-modify [] i g h a = tt
  All-modify (x ∷ xs) zero g h a = (h x a.0, a.1)
  All-modify (x ∷ xs) (suc i) g h a = (a.0, All-modify xs i g h a.1)

pub List-top :
    {A : Type 0} (xs : List A) → 0 < length xs → (x : A) × (below : List A) × (xs ≡ x ∷ below)
List-top [] h = absurd (omega arith)
List-top (x ∷ below) h = (x, below, refl)

module _ {A : Type 0} where
  pub get_elem-ne-none : (xs : List A) (i : ℕ) → i < length xs → get_elem? xs i ≢ none
  get_elem-ne-none [] i h = absurd (omega arith)
  get_elem-ne-none (x ∷ xs) zero h = λ e. cc
  get_elem-ne-none (x ∷ xs) (suc i) h = get_elem-ne-none xs i (omega arith)

  pub get_elem-in : (xs : List A) (i : ℕ) → i < length xs → (x : A) × (get_elem? xs i ≡ some x)
  get_elem-in [] i h = absurd (omega arith)
  get_elem-in (x ∷ xs) zero h = (x, refl)
  get_elem-in (x ∷ xs) (suc i) h = get_elem-in xs i (omega arith)

module _ {A : Type 0} {P Q : A → Type 0} where
  pub All-weaken : ((x : A) → P x → Q x) → (xs : List A) → All P xs → All Q xs
  All-weaken h [] a = tt
  All-weaken h (x ∷ xs) a = (h x a.0, All-weaken h xs a.1)

pub get_elem-past : {A : Type 0} (xs : List A) (i : ℕ) → length xs ≤ i → get_elem? xs i ≡ none
get_elem-past [] i h = refl
get_elem-past (x ∷ xs) zero h = absurd (omega arith)
get_elem-past (x ∷ xs) (suc i) h = get_elem-past xs i (omega arith)

module _ {A : Type 0} (g : A → A) where
  -- An element of a changed list is the changed one, or was there before.
  pub get_elem-modify :
      (xs : List A) (k i : ℕ) (y : A)
      → get_elem? (modify xs k g) i ≡ some y
      → ((x : A) × (get_elem? xs k ≡ some x) × (y ≡ g x)) ⊎ (get_elem? xs i ≡ some y)
  get_elem-modify [] k i y e = inr e
  get_elem-modify (x ∷ xs) zero zero y e = inl (x, refl, cc)
  get_elem-modify (x ∷ xs) zero (suc i) y e = inr e
  get_elem-modify (x ∷ xs) (suc k) zero y e = inr e
  get_elem-modify (x ∷ xs) (suc k) (suc i) y e = get_elem-modify xs k i y e

  pub get_elem-modify-same :
      (xs : List A) (k : ℕ) (x : A)
      → get_elem? xs k ≡ some x
      → get_elem? (modify xs k g) k ≡ some (g x)
  get_elem-modify-same [] k x e = cc
  get_elem-modify-same (y ∷ xs) zero x e = cc
  get_elem-modify-same (y ∷ xs) (suc k) x e = get_elem-modify-same xs k x e

module _ {A : Type 0} where
  -- The element behind the end of a list that gets one more.
  pub get_elem-append : (xs : List A) (x : A) → get_elem? (xs ++ (x ∷ [])) (length xs) ≡ some x
  get_elem-append [] x = refl
  get_elem-append (y ∷ xs) x = get_elem-append xs x

  -- An element keeps its place where a list grows at its end.
  pub get_elem-grow :
      (xs ys : List A) (i : ℕ) (x : A) → get_elem? xs i ≡ some x → get_elem? (xs ++ ys) i ≡ some x
  get_elem-grow [] ys i x e = cc
  get_elem-grow (y ∷ xs) ys zero x e = e
  get_elem-grow (y ∷ xs) ys (suc i) x e = get_elem-grow xs ys i x e

  pub get_elem-lt : (xs : List A) (i : ℕ) (x : A) → get_elem? xs i ≡ some x → i < length xs
  get_elem-lt [] i x e = cc
  get_elem-lt (y ∷ xs) zero x e = omega arith
  get_elem-lt (y ∷ xs) (suc i) x e = omega (arith, get_elem-lt xs i x e)

module _ {A : Type 0} (P : A → Type 0) where
  pub All-get_elem : (xs : List A) (i : ℕ) (x : A) → All P xs → get_elem? xs i ≡ some x → P x
  All-get_elem [] i x a e = cc
  All-get_elem (y ∷ xs) zero x a e = subst P (ap (λ m. head_or y m) e) a.0
  All-get_elem (y ∷ xs) (suc i) x a e = All-get_elem xs i x a.1 e
