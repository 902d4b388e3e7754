-- ===== src/World/Quiet.antt =====
-- Methods that only log: they return, and leave the tables and the outbound requests alone.
use keylore.Prelude.{◌≡◌, refl, sym, ◌∙◌, subst, Bool, true, false, if◌then◌else◌, ap}
use keylore.Exec.{Result, ok, Exec, then_run, ◌>>=◌, ◌>>◌, return, gets}
use keylore.Exec.Keeps.{Keeps}
use keylore.World.{World}

-- The parts of the state that no log entry touches.
pub record SameData (v w : World) : Type 0 where
  pub now : w.now ≡ v.now
  pub credentials : w.credentials ≡ v.credentials
  pub policies : w.policies ≡ v.policies
  pub approvals : w.approvals ≡ v.approvals
  pub break_glass : w.break_glass ≡ v.break_glass
  pub auth : w.auth ≡ v.auth
  pub rotations : w.rotations ≡ v.rotations
  pub outbound : w.outbound ≡ v.outbound

pub SameData-refl : (w : World) → SameData w w
SameData-refl w = record {
  now = refl;
  credentials = refl;
  policies = refl;
  approvals = refl;
  break_glass = refl;
  auth = refl;
  rotations = refl;
  outbound = refl;
}

pub SameData-trans : {u v w : World} → SameData u v → SameData v w → SameData u w
SameData-trans h k = record {
  now = k.now ∙ h.now;
  credentials = k.credentials ∙ h.credentials;
  policies = k.policies ∙ h.policies;
  approvals = k.approvals ∙ h.approvals;
  break_glass = k.break_glass ∙ h.break_glass;
  auth = k.auth ∙ h.auth;
  rotations = k.rotations ∙ h.rotations;
  outbound = k.outbound ∙ h.outbound;
}

pub record Quiet {A : Type 0} (m : Exec World A) : Type 0 where
  pub value : World → A
  pub returns : (w : World) → (m w).0 ≡ ok (value w)
  pub same : (w : World) → SameData w (m w).1

module _ {A B : Type 0} where
  -- The outcome of a block that starts with a returning method.
  pub then_run-ok :
      (r : Result A × World) (f : A → Exec World B) (a : A) → r.0 ≡ ok a → then_run r f ≡ f a r.1
  then_run-ok (x, w) f a e = rw e refl

  pub Quiet-bind :
      (m : Exec World A) (f : A → Exec World B)
      → Quiet m
      → ((a : A) → Quiet (f a))
      → Quiet (m >>= f)
  Quiet-bind m f q k = record {
    value = λ w. (k (q.value w)).value (m w).1;
    returns = λ w.
        ap (λ r. r.0) (then_run-ok (m w) f (q.value w) (q.returns w))
        ∙ (k (q.value w)).returns (m w).1;
    same = λ w. SameData-trans (q.same w) (
        subst (λ (r : Result B × World). SameData (m w).1 r.1)
          (sym (then_run-ok (m w) f (q.value w) (q.returns w))) ((k (q.value w)).same (m w).1));
  }

module _ {A : Type 0} where
  pub Quiet-return : (a : A) → Quiet (return a)
  Quiet-return a = record { value = λ w. a; returns = λ w. refl; same = SameData-refl }

  pub Quiet-if : (b : Bool) (m n : Exec World A) → Quiet m → Quiet n → Quiet (if b then m else n)
  Quiet-if true m n qm qn = qm
  Quiet-if false m n qm qn = qn

-- A predicate on the shared data holds after a quiet method if it held before.
pub Quiet-Keeps :
    {A : Type 0} (P : World → Type 0) (m : Exec World A)
    → Quiet m
    → ((v w : World) → SameData v w → P v → P w)
    → Keeps P m
Quiet-Keeps P m q h = record { at = λ s p. h s (m s).1 (q.same s) p }

pub Quiet-then :
    {A B : Type 0} (m : Exec World A) (n : Exec World B) → Quiet m → Quiet n → Quiet (m >> n)
Quiet-then m n q k = Quiet-bind m (λ _. n) q (λ _. k)

pub Quiet-now : Quiet (gets (λ (w : World). w.now))
Quiet-now = record { value = λ w. w.now; returns = λ w. refl; same = SameData-refl }

pub ruleset quiet_rules = (Quiet-return, Quiet-if, Quiet-then, Quiet-bind, Quiet-now)
