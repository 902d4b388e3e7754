-- ===== src/Policy/Tests.antt =====
-- The policy engine on concrete rules.
use keylore.Prelude.{String, ◌≡◌, refl, ◌↔◌, ◌⊎◌, Bool, true, List, [], ◌∷◌, Memᴰ, ends_with}
use mathlib.Core.List.{Permᴰ}
use keylore.Domain.{PrincipalRole, PolicyRule}
use keylore.Policy.{Verdict, PolicyDecision, choose, rule_matches, evaluate, match_pattern}
use keylore.Policy.Matching.{Covers, match_pattern_iff}
use keylore.Policy.Decision.{
  applies, IsUsable, Permits, effect_of, deny_overrides, evaluate-allow_iff, evaluate-rule_id,
}
use keylore.Policy.Order.{evaluate-perm}
use keylore.Fixtures.{same_text, credential, allow_rule, deny_rule}

-- The decision on a read of the credential under the given rules.
abbrev read : List PolicyRule → PolicyDecision
read rules =
    evaluate same_text 1000 rules "ci" (PrincipalRole.consumer ∷ []) credential "http.get"
      "api.example.com" "production"

abbrev read_applies : PolicyRule → Bool
read_applies =
    applies same_text 1000 "ci" (PrincipalRole.consumer ∷ []) credential "http.get"
      "api.example.com" "production"

allow_alone : (read (allow_rule ∷ [])).decision ≡ Verdict.allow
unfolding evaluate match_pattern rule_matches choose ends_with
allow_alone = refl

evaluate-allow_iff_example : ((read (allow_rule ∷ [])).decision ≡ Verdict.allow) ↔ (
    IsUsable same_text 1000 "ci"
      (PrincipalRole.consumer ∷ [])
      credential
      "http.get"
      "api.example.com"
      "production"
    × Permits same_text 1000 "ci"
        (PrincipalRole.consumer ∷ [])
        credential
        "http.get"
        "api.example.com"
        "production"
        (allow_rule ∷ []))
evaluate-allow_iff_example =
    evaluate-allow_iff same_text 1000 "ci" (PrincipalRole.consumer ∷ []) credential "http.get"
      "api.example.com" "production" (allow_rule ∷ [])

deny_overrides_example : (read (allow_rule ∷ deny_rule ∷ [])).decision ≡ Verdict.deny
unfolding rule_matches match_pattern ends_with
deny_overrides_example =
    deny_overrides same_text 1000 "ci" (PrincipalRole.consumer ∷ []) credential "http.get"
      "api.example.com" "production" (allow_rule ∷ deny_rule ∷ []) {rule = deny_rule}
      (Memᴰ.tail (Memᴰ.head refl)) refl refl

evaluate-rule_id_example :
    (rule : PolicyRule) × Memᴰ rule (allow_rule ∷ [])
    × (rule.id ≡ "allow-reads")
    × (read_applies rule ≡ true)
    × (rule.effect ≡ effect_of (read (allow_rule ∷ [])).decision)
unfolding evaluate match_pattern rule_matches choose ends_with
evaluate-rule_id_example =
    evaluate-rule_id same_text 1000 "ci" (PrincipalRole.consumer ∷ []) credential "http.get"
      "api.example.com" "production" (allow_rule ∷ []) {id = "allow-reads"} refl

abbrev subdomains : String
subdomains = "*.example.com"

match_pattern_iff_example :
    (match_pattern same_text "api.example.com" subdomains ≡ true)
    ↔ ((subdomains ≡ "*") ⊎ Covers subdomains "api.example.com")
match_pattern_iff_example = match_pattern_iff same_text "api.example.com" subdomains

evaluate-perm_example :
    (read (allow_rule ∷ deny_rule ∷ [])).decision ≡ (read (deny_rule ∷ allow_rule ∷ [])).decision
evaluate-perm_example =
    evaluate-perm same_text 1000 "ci" (PrincipalRole.consumer ∷ []) credential "http.get"
      "api.example.com" "production" (allow_rule ∷ deny_rule ∷ []) (deny_rule ∷ allow_rule ∷ [])
      ∣ Permᴰ.swap refl refl ∣₁
