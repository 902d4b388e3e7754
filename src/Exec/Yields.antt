-- ===== src/Exec/Yields.antt =====
-- Methods that keep an invariant, and what holds of the values that they return.
use keylore.Prelude.{String, ◌≡◌, refl, Bool, true, false, if◌then◌else◌, Option, none, some}
use keylore.Exec.{Result, ok, thrown, Exec, then_run, ◌>>=◌, return, throw, gets, demand, existing}
use keylore.Exec.Keeps.{Keeps}

-- What holds of the outcome of a method.
abbrev pub Holds : {S A : Type 0} → (S → Type 0) → (A → S → Type 0) → Result A × S → Type 0
Holds E Q (ok a, s) = Q a s
Holds E Q (thrown e, s) = E s

-- From a state with `P`, `m` throws in a state with `E`, or returns a value and a state with `Q`.
pub record Leads {S A : Type 0} (P E : S → Type 0) (m : Exec S A) (Q : A → S → Type 0)
    : Type 0 where
  pub at : (s : S) → P s → Holds E Q (m s)

-- `m` keeps `P`, and what it returns has `R`.
pub record Yields {S A : Type 0} (P : S → Type 0) (m : Exec S A) (R : A → Type 0) : Type 0 where
  pub at : (s : S) → P s → Holds P (λ a s. P s × R a) (m s)

module _ {S A B : Type 0} {E : S → Type 0} where
  then_run-Holds :
      {R : A → S → Type 0} {Q : B → S → Type 0} (r : Result A × S) (f : A → Exec S B)
      → Holds E R r
      → ((a : A) → Leads (R a) E (f a) Q)
      → Holds E Q (then_run r f)
  then_run-Holds (ok a, s) f h k = (k a).at s h
  then_run-Holds (thrown e, s) f h k = h

  pub Leads-bind :
      {P : S → Type 0} {R : A → S → Type 0} {Q : B → S → Type 0} (m : Exec S A) (f : A → Exec S B)
      → Leads P E m R
      → ((a : A) → Leads (R a) E (f a) Q)
      → Leads P E (m >>= f) Q
  Leads-bind m f h k = record { at = λ s p. then_run-Holds (m s) f (h.at s p) k }

module _ {S A : Type 0} {P E : S → Type 0} {Q : A → S → Type 0} where
  -- A part of the precondition that does not speak of the state is a hypothesis.
  pub Leads-given : {F : Type 0} {m : Exec S A} → (F → Leads P E m Q) → Leads (λ s. P s × F) E m Q
  Leads-given k = record { at = λ s (p, f). (k f).at s p }

  pub Leads-gets : {f : S → A} → ((s : S) → P s → Q (f s) s) → Leads P E (gets f) Q
  Leads-gets k = record { at = k }

  pub Leads-return : {a : A} → ((s : S) → P s → Q a s) → Leads P E (return a) Q
  Leads-return k = record { at = k }

  pub Leads-throw : (e : String) → ((s : S) → P s → E s) → Leads P E (throw e) Q
  Leads-throw e k = record { at = k }

  pub Leads-if :
      (b : Bool) {m n : Exec S A}
      → (b ≡ true → Leads P E m Q)
      → (b ≡ false → Leads P E n Q)
      → Leads P E (if b then m else n) Q
  Leads-if true h k = h refl
  Leads-if false h k = k refl

module _ {S A B : Type 0} {P : S → Type 0} where
  then_run-Yields :
      (R : A → Type 0) (Q : B → Type 0) (r : Result A × S) (f : A → Exec S B)
      → Holds P (λ a s. P s × R a) r
      → ((a : A) → R a → Yields P (f a) Q)
      → Holds P (λ b s. P s × Q b) (then_run r f)
  then_run-Yields R Q (ok a, s) f (h, x) k = (k a x).at s h
  then_run-Yields R Q (thrown e, s) f h k = h

  pub Yields-bind :
      {R : A → Type 0} {Q : B → Type 0} (m : Exec S A) (f : A → Exec S B)
      → Yields P m R
      → ((a : A) → R a → Yields P (f a) Q)
      → Yields P (m >>= f) Q
  Yields-bind {R} {Q} m f h k = record { at = λ s p. then_run-Yields R Q (m s) f (h.at s p) k }

module _ {S A : Type 0} (P : S → Type 0) where
  keeps-Holds : (r : Result A × S) → P r.1 → Holds P (λ (a : A) s. P s × Unit) r
  keeps-Holds (ok a, s) h = (h, tt)
  keeps-Holds (thrown e, s) h = h

  Holds-keeps : (R : A → Type 0) (r : Result A × S) → Holds P (λ a s. P s × R a) r → P r.1
  Holds-keeps R (ok a, s) (h, _) = h
  Holds-keeps R (thrown e, s) h = h

module _ {S A : Type 0} {P : S → Type 0} where
  pub Yields-Keeps : {m : Exec S A} → Keeps P m → Yields P m (λ a. Unit)
  Yields-Keeps {m} k = record { at = λ s h. keeps-Holds P (m s) (k.at s h) }

  pub Keeps-Yields : {R : A → Type 0} {m : Exec S A} → Yields P m R → Keeps P m
  Keeps-Yields {R} {m} y = record { at = λ s h. Holds-keeps P R (m s) (y.at s h) }

  pub Yields-gets : {R : A → Type 0} {f : S → A} → ((s : S) → P s → R (f s)) → Yields P (gets f) R
  Yields-gets k = record { at = λ s p. (p, k s p) }

  pub Yields-return : {R : A → Type 0} {a : A} → R a → Yields P (return a) R
  Yields-return r = record { at = λ s p. (p, r) }

  pub Yields-existing : (o : Option A) (e : String) → Yields P (existing o e) (λ a. o ≡ some a)
  unfolding existing
  Yields-existing none e = record { at = λ s p. p }
  Yields-existing (some a) e = record { at = λ s p. (p, refl) }

module _ {S : Type 0} {P : S → Type 0} where
  pub Yields-demand : (b : Bool) (e : String) → Yields P (demand b e) (λ _. b ≡ true)
  unfolding demand
  Yields-demand true e = record { at = λ s p. (p, refl) }
  Yields-demand false e = record { at = λ s p. p }

module _ {S A : Type 0} (P E : S → Type 0) where
  Leads-Holds :
      (R : A → Type 0) (r : Result A × S)
      → ((s : S) → P s → E s)
      → Holds P (λ a s. P s × R a) r
      → Holds E (λ a s. P s × R a) r
  Leads-Holds R (ok a, s) k h = h
  Leads-Holds R (thrown e, s) k h = k s h

  pub Leads-Yields :
      {R : A → Type 0} {m : Exec S A}
      → ((s : S) → P s → E s)
      → Yields P m R
      → Leads P E m (λ a s. P s × R a)
  Leads-Yields {R} {m} k y = record { at = λ s p. Leads-Holds R (m s) k (y.at s p) }

  kept-Holds : (r : Result A × S) → ((s : S) → P s → E s) → P r.1 → Holds E (λ a s. P s) r
  kept-Holds (ok a, s) k h = h
  kept-Holds (thrown e, s) k h = k s h

  pub Leads-Keeps : {m : Exec S A} → ((s : S) → P s → E s) → Keeps P m → Leads P E m (λ a s. P s)
  Leads-Keeps {m} k q = record { at = λ s p. kept-Holds (m s) k (q.at s p) }

module _ {S A : Type 0} where
  always_holds : (E : S → Type 0) (r : Result A × S) → Holds E (λ a s. E s) r → E r.1
  always_holds E (ok a, s) h = h
  always_holds E (thrown e, s) h = h

  -- What holds after a method, however it ends.
  pub Leads-end :
      {P E : S → Type 0} {m : Exec S A} → Leads P E m (λ a s. E s) → (s : S) → P s → E (m s).1
  Leads-end {E = E} {m = m} l s p = always_holds E (m s) (l.at s p)
