-- ===== src/Exec.antt =====
-- Methods that change an object and may throw. What was written before an exception stays written,
-- so the state comes back beside it.
use distributed_replicated_c.Prelude.{◌≡◌, refl, ap}
use distributed_replicated_c.Result.{Exception, Result, ok, throws}

abbrev pub Exec {ℓ} : Type ℓ → Type ℓ → Type ℓ
Exec S A = S → Result A × S

module _ {ℓ} {S A : Type ℓ} where
  abbrev pub pure : A → Exec S A
  pure a s = (ok a, s)

  abbrev pub raise : Exception → Exec S A
  raise e s = (throws e, s)

  abbrev pub lift : Result A → Exec S A
  lift r s = (r, s)

module _ {ℓ} {S A B : Type ℓ} where
  abbrev pub continue : Result A → (A → Exec S B) → Exec S B
  continue (ok a) f s = f a s
  continue (throws e) f s = (throws e, s)

  infixl 5 ◌>>=◌ ◌>>◌
  abbrev pub ◌>>=◌ : Exec S A → (A → Exec S B) → Exec S B
  ◌>>=◌ m f s = continue (m s).0 f (m s).1

  abbrev pub ◌>>◌ : Exec S A → Exec S B → Exec S B
  m >> n = m >>= λ _. n

-- A chain whose first step succeeds goes on with its value.
pub >>=-ok :
    {S A B : Type 0} (m : Exec S A) (f : A → Exec S B) (s : S) {a : A} {s1 : S}
    → m s ≡ (ok a, s1)
    → (m >>= f) s ≡ f a s1
>>=-ok {S} {A} m f s h = ap (λ (t : Result A × S). continue t.0 f t.1) h

-- A successful chain had a successful first step.
pub >>=-eq-ok :
    {S A B : Type 0} (m : Exec S A) (f : A → Exec S B) (s : S) {b : B} {s' : S}
    → (m >>= f) s ≡ (ok b, s')
    → (a : A) × (s1 : S) × (m s ≡ (ok a, s1)) × (f a s1 ≡ (ok b, s'))
>>=-eq-ok {S} {A} {B} m f s {b} {s'} h = by_result (m s).0 (m s).1 refl h
  where
    by_result :
        (r : Result A) (t : S)
        → m s ≡ (r, t)
        → continue r f t ≡ (ok b, s')
        → (a : A) × (s1 : S) × (m s ≡ (ok a, s1)) × (f a s1 ≡ (ok b, s'))
    by_result (ok a) t e k = (a, t, e, k)
    by_result (throws x) t e k = let p : throws x ≡ ok b = ap (λ (q : Result B × S). q.0) k in cc
