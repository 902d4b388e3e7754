-- ===== src/Policy/Order.antt =====
-- The order of the rules in src/services/policy-engine.ts.
use mathlib.Core.List.{Perm, Permᴰ}
use mathlib.Core.Logic.{∥∥₁_elim}
use keylore.Prelude.{
  ℕ, String, ◌≡◌, refl, sym, ap, ◌∙◌, Bool, ◌&&◌, List, if◌then◌else◌, any, filter, any-filter,
  any-perm,
}
use keylore.Domain.{PrincipalRole, CredentialRecord, Effect, PolicyRule}
use keylore.Policy.{Verdict, has_effect, evaluate}
use keylore.Policy.Decision.{applies, usable, verdict_of, evaluate-verdict_of}

Verdict-discrete : Discrete Verdict
Verdict-discrete = hlevel

Verdict-set : IsSet Verdict
Verdict-set = hlevel

any_kept-perm :
    (p q : PolicyRule → Bool) {rules rules' : List PolicyRule}
    → Permᴰ rules rules'
    → any p (filter q rules) ≡ any p (filter q rules')
any_kept-perm p q {rules} {rules'} k =
    any-filter p q rules ∙ any-perm (λ r. q r && p r) k ∙ sym (any-filter p q rules')

verdict_of-perm :
    (q : PolicyRule → Bool) {rules rules' : List PolicyRule}
    → Permᴰ rules rules'
    → verdict_of (filter q rules) ≡ verdict_of (filter q rules')
verdict_of-perm q k =
    rw
      (
        any_kept-perm (has_effect Effect.deny) q k,
        any_kept-perm (has_effect Effect.approval) q k,
        any_kept-perm (has_effect Effect.allow) q k,
      )
      refl

module _ (lower : String → String) (now : ℕ) (principal : String) (roles : List PrincipalRole)
    (credential : CredentialRecord) (operation host environment : String) where
  evaluate-permᴰ :
      (rules rules' : List PolicyRule)
      → Permᴰ rules rules'
      → (evaluate lower now rules principal roles credential operation host environment).decision
        ≡ (evaluate lower now rules' principal roles credential operation host environment).decision
  evaluate-permᴰ rules rules' k =
      evaluate-verdict_of lower now principal roles credential operation host environment rules
      ∙ ap
          (λ v.
            if usable lower now principal roles credential operation host environment
            then v
            else Verdict.deny)
          (verdict_of-perm (applies lower now principal roles credential operation host environment)
            k)
      ∙ sym (
          evaluate-verdict_of lower now principal roles credential operation host environment
            rules')

  -- Two lists with the same rules, in any order, give the same verdict.
  pub evaluate-perm :
      (rules rules' : List PolicyRule)
      → Perm rules rules'
      → (evaluate lower now rules principal roles credential operation host environment).decision
        ≡ (evaluate lower now rules' principal roles credential operation host environment).decision
  evaluate-perm rules rules' k = ∥∥₁_elim k (Verdict-set _ _) (evaluate-permᴰ rules rules')
