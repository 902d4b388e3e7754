-- ===== src/Exec/Keeps.antt =====
-- Invariants of methods: one rule for each way to build a method.
use keylore.Prelude.{String, Bool, true, false, if◌then◌else◌}
use keylore.Exec.{Result, ok, thrown, Exec, then_run, ◌>>=◌, return, throw, gets, lift}

-- `m` keeps `P` whether it returns or throws.
pub record Keeps {S A : Type 0} (P : S → Type 0) (m : Exec S A) : Type 0 where
  pub at : (s : S) → P s → P (m s).1

module _ {S A : Type 0} {P : S → Type 0} where
  pub Keeps-return : (a : A) → Keeps P (return a)
  Keeps-return a = record { at = λ s h. h }

  pub Keeps-throw : (e : String) → Keeps P (throw {A = A} e)
  Keeps-throw e = record { at = λ s h. h }

  pub Keeps-gets : (f : S → A) → Keeps P (gets f)
  Keeps-gets f = record { at = λ s h. h }

  pub Keeps-lift : (r : Result A) → Keeps P (lift r)
  Keeps-lift r = record { at = λ s h. h }

  pub Keeps-if : (b : Bool) (m n : Exec S A) → Keeps P m → Keeps P n → Keeps P (if b then m else n)
  Keeps-if true m n km kn = km
  Keeps-if false m n km kn = kn

module _ {S A B : Type 0} {P : S → Type 0} where
  -- The rest of a block keeps what held after its first statement.
  pub then_run-Keeps :
      (r : Result A × S) (f : A → Exec S B) → P r.1 → ((a : A) → Keeps P (f a)) → P (then_run r f).1
  then_run-Keeps (ok a, s) f h kf = (kf a).at s h
  then_run-Keeps (thrown e, s) f h kf = h

  pub Keeps-bind :
      (m : Exec S A) (f : A → Exec S B) → Keeps P m → ((a : A) → Keeps P (f a)) → Keeps P (m >>= f)
  Keeps-bind m f km kf = record { at = λ s h. then_run-Keeps (m s) f (km.at s h) kf }

pub ruleset keeps_rules = (Keeps-return, Keeps-throw, Keeps-gets, Keeps-lift, Keeps-if, Keeps-bind)
