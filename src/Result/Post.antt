-- ===== src/Result/Post.antt =====
-- What holds of a result: `P` of the value that is returned, nothing of an error, and `F` where the
-- run has no meaning. With `F` empty the code never faults.
use silverfir.Prelude.{
  Option, none, some, Bool, true, false, ◌≡◌, ◌≢◌, refl, ap, subst, if◌then◌else◌,
}
use silverfir.Result.{ErrorKind, Result, ok, err, fault, ◌>>=◌}

pub data Post {ℓ} {A : Type ℓ} (P : A → Type 0) (F : Type 0) : Result A → Type ℓ where
  returns : {a : A} → P a → Post P F (ok a)
  throws : {e : ErrorKind} → Post P F (err e)
  faults : F → Post P F fault

abbrev value_or : {A : Type 0} → A → Result A → A
value_or d (ok a) = a
value_or d (err e) = d
value_or d fault = d

module _ {A : Type 0} {P : A → Type 0} {F : Type 0} where
  pub Post-if :
      (b : Bool) (m n : Result A)
      → (b ≡ true → Post P F m)
      → (b ≡ false → Post P F n)
      → Post P F (if b then m else n)
  Post-if true m n hm hn = hm refl
  Post-if false m n hm hn = hn refl

  pub of_ok : {a : A} (r : Result A) → Post P F r → r ≡ ok a → P a
  of_ok r (returns {a = b} p) e = subst P (ap (value_or b) e) p
  of_ok r throws e = cc
  of_ok r (faults f) e = cc

  -- From what a successful run shows, for code that does not fault.
  pub Post-of_ok : (r : Result A) → r ≢ fault → ((a : A) → r ≡ ok a → P a) → Post P F r
  Post-of_ok (ok a) nf h = returns (h a refl)
  Post-of_ok (err e) nf h = throws
  Post-of_ok fault nf h = absurd (nf refl)

  -- The general form, where a fault may show something as well.
  pub Post-of : (r : Result A) → ((a : A) → r ≡ ok a → P a) → (r ≡ fault → F) → Post P F r
  Post-of (ok a) h f = returns (h a refl)
  Post-of (err e) h f = throws
  Post-of fault h f = faults (f refl)

  pub of_fault : (r : Result A) → Post P F r → r ≡ fault → F
  of_fault r (returns p) e = cc
  of_fault r throws e = cc
  of_fault r (faults f) e = f

  -- Remember which run gave the value.
  pub Post-with : (r : Result A) → Post P F r → Post (λ a. P a × (r ≡ ok a)) F r
  Post-with r (returns p) = returns (p, refl)
  Post-with r throws = throws
  Post-with r (faults f) = faults f

module _ {A B : Type 0} {P : A → Type 0} {F : Type 0} where
  pub Post-Option :
      (m : Option B) (n : Result A) (k : B → Result A)
      → Post P F n
      → ((x : B) → Post P F (k x))
      → Post P F (elim m [ none ↦ n | some x ↦ k x ])
  Post-Option none n k hn hk = hn
  Post-Option (some x) n k hn hk = hk x

  -- The same, where the branch may use what was found.
  pub Post-found :
      (m : Option B) (n : Result A) (k : B → Result A)
      → (m ≡ none → Post P F n)
      → ((x : B) → m ≡ some x → Post P F (k x))
      → Post P F (elim m [ none ↦ n | some x ↦ k x ])
  Post-found none n k hn hk = hn refl
  Post-found (some x) n k hn hk = hk x refl

module _ {A : Type 0} {P : A → Type 0} {F G : Type 0} where
  pub weaken_fault : {r : Result A} → (F → G) → Post P F r → Post P G r
  weaken_fault h (returns p) = returns p
  weaken_fault h throws = throws
  weaken_fault h (faults f) = faults (h f)

module _ {A B : Type 0} {P : A → Type 0} {Q : B → Type 0} {F : Type 0} where
  infixl 4 ◌⟫◌
  pub ◌⟫◌ :
      {m : Result A} {f : A → Result B}
      → Post P F m
      → ((a : A) → P a → Post Q F (f a))
      → Post Q F (m >>= f)
  returns p ⟫ k = k _ p
  throws ⟫ k = throws
  faults f ⟫ k = faults f

module _ {A : Type 0} {P Q : A → Type 0} {F : Type 0} where
  pub Post-both : {r : Result A} → Post P F r → Post Q F r → Post (λ a. P a × Q a) F r
  Post-both (returns p) (returns q) = returns (p, q)
  Post-both throws q = throws
  Post-both (faults f) q = faults f

  pub weaken : {r : Result A} → ((a : A) → P a → Q a) → Post P F r → Post Q F r
  weaken h (returns p) = returns (h _ p)
  weaken h throws = throws
  weaken h (faults f) = faults f
