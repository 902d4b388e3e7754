-- ===== src/Exec.antt =====
-- Methods that read and write shared state and may throw: what was written before a throw stays
-- written, so the state comes back beside the error too. An error is the text of the exception.
pub mod Keeps
pub mod Yields
use keylore.Prelude.{Bool, true, false, String, ◌≡◌, Option, none, some, List, [], ◌∷◌}

pub data Result {ℓ} (A : Type ℓ) : Type ℓ where
  ok : A → Result A
  thrown : String → Result A

abbrev pub Exec {ℓ} : Type ℓ → Type ℓ → Type ℓ
Exec S A = S → Result A × S

-- What a block goes on with, given the outcome of its first statement.
abbrev pub then_run {ℓ} : {S A B : Type ℓ} → Result A × S → (A → Exec S B) → Result B × S
then_run (ok a, s) f = f a s
then_run (thrown e, s) f = (thrown e, s)

infixl 10 ◌>>=◌ ◌>>◌
abbrev pub ◌>>=◌ {ℓ} : {S A B : Type ℓ} → Exec S A → (A → Exec S B) → Exec S B
◌>>=◌ m f s = then_run (m s) f

abbrev pub ◌>>◌ {ℓ} : {S A B : Type ℓ} → Exec S A → Exec S B → Exec S B
m >> n = m >>= λ _. n

abbrev pub return {ℓ} : {S A : Type ℓ} → A → Exec S A
return a s = (ok a, s)

abbrev pub throw {ℓ} : {S A : Type ℓ} → String → Exec S A
throw e s = (thrown e, s)

abbrev pub gets {ℓ} : {S A : Type ℓ} → (S → A) → Exec S A
gets f s = (ok (f s), s)

abbrev pub modify : {S : Type 0} → (S → S) → Exec S Unit
modify f s = (ok tt, f s)

abbrev pub lift {ℓ} : {S A : Type ℓ} → Result A → Exec S A
lift r s = (r, s)

-- `if (!test) throw new Error(message)`
unfoldable pub demand : {S : Type 0} → Bool → String → Exec S Unit
demand true e = return tt
demand false e = throw e

-- The value, or the exception where it is missing.
unfoldable pub existing : {S A : Type 0} → Option A → String → Exec S A
existing none e = throw e
existing (some a) e = return a
