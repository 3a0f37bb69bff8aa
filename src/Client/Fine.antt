-- ===== src/Client/Fine.antt =====
-- Methods of the client that end in no bad_cast, put together from their steps.
use distributed_replicated_c.Prelude.{
  ◌≢◌, refl, subst, Bool, true, false, if◌then◌else◌, Option, none, some,
}
use distributed_replicated_c.Result.{
  Exception, overflow_error, out_of_range, length_error, bad_cast, undefined, runtime_error,
  invalid_argument, Result, ok, throws, or_throw,
}
use distributed_replicated_c.Exec.{Exec, continue, ◌>>=◌}

-- An exception that is no bad_cast.
abbrev pub NotCast : Exception → Type 0
NotCast bad_cast = ⊥
NotCast _ = Unit {0}

abbrev pub IsFine : {A : Type 0} → Result A → Type 0
IsFine (ok a) = Unit {0}
IsFine (throws e) = NotCast e

pub ne-IsFine : {A : Type 0} (r : Result A) → r ≢ throws bad_cast → IsFine r
ne-IsFine (ok a) h = tt
ne-IsFine (throws bad_cast) h = h refl
ne-IsFine (throws overflow_error) h = tt
ne-IsFine (throws out_of_range) h = tt
ne-IsFine (throws length_error) h = tt
ne-IsFine (throws undefined) h = tt
ne-IsFine (throws (runtime_error t)) h = tt
ne-IsFine (throws (invalid_argument t)) h = tt

pub IsFine-ne : {A : Type 0} (r : Result A) → IsFine r → r ≢ throws bad_cast
IsFine-ne r f = λ h. subst IsFine h f

-- A method that ends in no bad_cast.
unfoldable pub AllFine : {S A : Type 0} → Exec S A → Type 0
AllFine {S} m = (s : S) → IsFine (m s).0

module _ {S A B : Type 0} where
  pub >>=-AllFine :
      (m : Exec S A) (f : A → Exec S B) → AllFine m → ((a : A) → AllFine (f a)) → AllFine (m >>= f)
  unfolding AllFine
  >>=-AllFine m f h g s = by_result (m s).0 (m s).1 (h s)
    where
      by_result : (r : Result A) (t : S) → IsFine r → IsFine (continue r f t).0
      by_result (ok a) t p = g a t
      by_result (throws e) t p = p

module _ {S A : Type 0} where
  pub if-AllFine :
      (b : Bool) (m m' : Exec S A) → AllFine m → AllFine m' → AllFine (if b then m else m')
  if-AllFine true m m' h k = h
  if-AllFine false m m' h k = k

pub or_throw-IsFine :
    {A : Type 0} (e : Exception) (o : Option A) → NotCast e → IsFine (or_throw e o)
or_throw-IsFine e none h = h
or_throw-IsFine e (some a) h = tt
