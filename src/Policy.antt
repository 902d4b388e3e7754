-- ===== src/Policy.antt =====
-- The policy engine of src/services/policy-engine.ts.
-- `lower` stands for `String.prototype.toLowerCase`, and `now` for `Date.now()`.
pub mod Matching
pub mod Decision
pub mod Order
mod Tests
use keylore.Prelude.{
  ℕ, String, Bool, true, false, Option, none, some, List, [], ◌∷◌, map, ◌&&◌, ◌||◌, not, ◌==◌, leb,
  if◌then◌else◌, any, find, filter, includes, starts_with, drop, ends_with,
}
use keylore.Domain.{
  CredentialStatus, operation_text, PrincipalRole, includes_role, CredentialRecord, Effect,
  PolicyRule,
}

pub data Verdict : Type 0 where
  allow deny approval : Verdict

pub record PolicyDecision : Type 0 where
  pub decision : Verdict
  pub reason : String
  pub rule_id : Option String

abbrev pub is_active : CredentialStatus → Bool
is_active CredentialStatus.active = true
is_active CredentialStatus.disabled = false

abbrev pub has_effect : Effect → PolicyRule → Bool
has_effect Effect.allow r = elim r.effect [ Effect.allow ↦ true | _ ↦ false ]
has_effect Effect.deny r = elim r.effect [ Effect.deny ↦ true | _ ↦ false ]
has_effect Effect.approval r = elim r.effect [ Effect.approval ↦ true | _ ↦ false ]

-- `!list || list.some(test)`
abbrev pub unset_or_any {ℓ} : {A : Type ℓ} → Option (List A) → (A → Bool) → Bool
unset_or_any none test = true
unset_or_any (some xs) test = any test xs

-- The text after the leading `*` decides: the apex itself, or a name that ends in `.apex`.
abbrev pub match_normalized : String → String → Bool
match_normalized value pattern =
    if starts_with pattern "*."
    then value == drop 2 pattern || ends_with value (drop 1 pattern)
    else value == pattern

module _ (lower : String → String) where
  unfoldable pub match_pattern : String → String → Bool
  match_pattern value pattern =
      if pattern == "*" then true else match_normalized (lower value) (lower pattern)

  unfoldable pub rule_matches :
      PolicyRule → String → List PrincipalRole → CredentialRecord → String → String → String → Bool
  rule_matches rule principal roles credential operation host environment =
      any (match_pattern principal) rule.principals
      && unset_or_any rule.principal_roles (includes_role roles)
      && unset_or_any rule.credential_ids (λ candidate. candidate == credential.id)
      && unset_or_any rule.services (match_pattern credential.service)
      && any (match_pattern operation) rule.operations
      && any (match_pattern host) rule.domain_patterns
      && unset_or_any rule.environments (match_pattern environment)

denied : String → PolicyDecision
denied reason = record { decision = Verdict.deny; reason = reason; rule_id = none }

decided : Verdict → PolicyRule → PolicyDecision
decided verdict rule = record {
  decision = verdict;
  reason = rule.description;
  rule_id = some rule.id;
}

-- The three searches over the matching rules: deny, then approval, then allow, else deny.
unfoldable pub choose : List PolicyRule → PolicyDecision
unfolding denied decided
choose matching = elim (find (has_effect Effect.deny) matching) [
  | some rule ↦ decided Verdict.deny rule
  | none ↦ elim (find (has_effect Effect.approval) matching) [
    | some rule ↦ decided Verdict.approval rule
    | none ↦ elim (find (has_effect Effect.allow) matching) [
      | some rule ↦ decided Verdict.allow rule
      | none ↦ denied "No matching allow rule was found. KeyLore is default-deny."
    ]
  ]
]

-- `credential.expiresAt && new Date(credential.expiresAt).getTime() <= Date.now()`
abbrev pub has_expired : ℕ → Option ℕ → Bool
has_expired now none = false
has_expired now (some t) = leb t now

module _ (lower : String → String) (now : ℕ) where
  unfoldable pub evaluate :
      List PolicyRule
      → String
      → List PrincipalRole
      → CredentialRecord
      → String
      → String
      → String
      → PolicyDecision
  unfolding denied
  evaluate rules principal roles credential operation host environment =
      if not (is_active credential.status)
      then denied "Credential is not active."
      else if has_expired now credential.expires_at
      then denied "Credential has expired."
      else if not (includes (map operation_text credential.permitted_operations) operation)
      then denied "Operation is not permitted for this credential."
      else if not (any (match_pattern lower host) credential.allowed_domains)
      then denied "Target domain is not allowlisted for this credential."
      else choose (
          filter
            (λ rule. rule_matches lower rule principal roles credential operation host environment)
            rules)
