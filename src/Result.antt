-- ===== src/Result.antt =====
-- src/utils/result.h: a function returns a value or an error message whose prefix is its kind. The
-- text behind the prefix is dropped. `fault` stands where the source reads through a null pointer
-- or outside an array, so that C gives the run no meaning.
pub mod Post
use silverfir.Prelude.{◌≡◌, ◌⊎◌, inl, inr, refl}

pub data ErrorKind : Type 0 where
  general malformed invalid unlinkable exhaustion trap exit : ErrorKind

pub data Result {ℓ} (A : Type ℓ) : Type ℓ where
  ok : A → Result A
  err : ErrorKind → Result A
  fault : Result A

-- `unwrap` and `check`: an error leaves the function at once.
infixl 5 ◌>>=◌
abbrev pub ◌>>=◌ {ℓ κ} : {A : Type ℓ} {B : Type κ} → Result A → (A → Result B) → Result B
ok a >>= f = f a
err e >>= f = err e
fault >>= f = fault

pub Result-cases {ℓ} :
    {A : Type ℓ} (r : Result A)
    → ((a : A) × (r ≡ ok a)) ⊎ ((e : ErrorKind) × (r ≡ err e)) ⊎ (r ≡ fault)
Result-cases (ok a) = inl (a, refl)
Result-cases (err e) = inr (inl (e, refl))
Result-cases fault = inr (inr refl)
