-- ===== src/Policy/Decision.antt =====
-- When the policy engine of src/services/policy-engine.ts allows, denies and asks for approval.
use keylore.Prelude.{
  ℕ, ◌<◌, String, ◌≡◌, ◌↔◌, refl, sym, ap, ◌∙◌, inl, inr, Bool, true, false, ◌&&◌, not, Option,
  none, some, List, map, arith, if◌then◌else◌, Bool-cases, Option-cases, any, find, filter,
  includes, Memᴰ, find-eq-some, find-eq-none_iff, any-of_mem, mem-of_filter, mem-filter,
  any-false_of_mem, mem-of_any, mem-of_includes, includes-of_mem,
}
use keylore.Domain.{
  operation_text, PrincipalRole, CredentialRecord, CredentialStatus, Effect, PolicyRule,
}
use keylore.Policy.{
  Verdict, PolicyDecision, is_active, has_effect, has_expired, match_pattern, rule_matches, denied,
  decided, choose, evaluate,
}

-- The verdict that the searches reach, as three tests.
abbrev pub verdict_of : List PolicyRule → Verdict
verdict_of matching =
    if any (has_effect Effect.deny) matching
    then Verdict.deny
    else if any (has_effect Effect.approval) matching
    then Verdict.approval
    else if any (has_effect Effect.allow) matching
    then Verdict.allow
    else Verdict.deny

choose-verdict_of : (matching : List PolicyRule) → (choose matching).decision ≡ verdict_of matching
unfolding choose
choose-verdict_of matching = ground (
  arith,
  find-eq-none_iff (has_effect Effect.deny) matching,
  find-eq-none_iff (has_effect Effect.approval) matching,
  find-eq-none_iff (has_effect Effect.allow) matching,
)

-- The rule whose identifier an allowing decision carries.
choose-allow :
    (matching : List PolicyRule)
    → (choose matching).decision ≡ Verdict.allow
    → (rule : PolicyRule) × (find (has_effect Effect.allow) matching ≡ some rule)
      × (choose matching ≡ decided Verdict.allow rule)
unfolding choose
choose-allow matching h = elim (Option-cases (find (has_effect Effect.allow) matching)) [
  | inl e ↦ absurd (ground arith)
  | inr (rule, e) ↦ (rule, e, ground arith)
]

abbrev pub effect_of : Verdict → Effect
effect_of Verdict.allow = Effect.allow
effect_of Verdict.deny = Effect.deny
effect_of Verdict.approval = Effect.approval

module _ (lower : String → String) (now : ℕ) (principal : String) (roles : List PrincipalRole)
    (credential : CredentialRecord) (operation host environment : String) where
  abbrev pub applies : PolicyRule → Bool
  applies rule = rule_matches lower rule principal roles credential operation host environment

  -- The credential itself may be used for this operation on this host.
  pub record IsUsable : Type 0 where
    pub active : credential.status ≡ CredentialStatus.active
    pub unexpired : (t : ℕ) → credential.expires_at ≡ some t → now < t
    pub permitted : Memᴰ operation (map operation_text credential.permitted_operations)
    pub allowlisted :
        (pattern : String) × Memᴰ pattern credential.allowed_domains
        × (match_pattern lower host pattern ≡ true)

  abbrev pub usable : Bool
  usable =
      is_active credential.status
      && not (has_expired now credential.expires_at)
      && includes (map operation_text credential.permitted_operations) operation
      && any (match_pattern lower host) credential.allowed_domains

  unexpired_sound : (e : Option ℕ) → has_expired now e ≡ false → (t : ℕ) → e ≡ some t → now < t
  unexpired_sound none h t same = cc
  unexpired_sound (some u) h t same = ground arith

  unexpired_complete : (e : Option ℕ) → ((t : ℕ) → e ≡ some t → now < t) → has_expired now e ≡ false
  unexpired_complete none h = refl
  unexpired_complete (some u) h = ground (arith, h u refl)

  active_sound : (s : CredentialStatus) → is_active s ≡ true → s ≡ CredentialStatus.active
  active_sound s h = ground arith

  usable_sound : usable ≡ true → IsUsable
  usable_sound h = record {
    active = active_sound credential.status (ground arith);
    unexpired = unexpired_sound credential.expires_at (ground arith);
    permitted = mem-of_includes _ operation (ground arith);
    allowlisted = mem-of_any (match_pattern lower host) credential.allowed_domains (ground arith);
  }

  usable_complete : IsUsable → usable ≡ true
  usable_complete u =
      let (pattern, listed, matched) = u.allowlisted in
      ground (
        arith,
        unexpired_complete credential.expires_at u.unexpired,
        includes-of_mem _ operation u.permitted,
        any-of_mem (match_pattern lower host) credential.allowed_domains listed matched,
        u.active,
      )

  module _ (rules : List PolicyRule) where
    abbrev evaluated : PolicyDecision
    evaluated = evaluate lower now rules principal roles credential operation host environment

    evaluate-usable : usable ≡ true → evaluated ≡ choose (filter applies rules)
    unfolding evaluate
    evaluate-usable h = ground arith

    evaluate-unusable : usable ≡ false → evaluated.decision ≡ Verdict.deny
    unfolding evaluate denied
    evaluate-unusable h = ground arith

    pub evaluate-verdict_of :
        evaluated.decision ≡ (if usable then verdict_of (filter applies rules) else Verdict.deny)
    evaluate-verdict_of = elim (Bool-cases usable) [
      | inl e ↦ rw (e, evaluate-usable e) (choose-verdict_of (filter applies rules))
      | inr e ↦ rw e (evaluate-unusable e)
    ]

    -- A deny rule that applies decides, whatever the other rules say.
    pub deny_overrides :
        {rule : PolicyRule}
        → Memᴰ rule rules
        → applies rule ≡ true
        → rule.effect ≡ Effect.deny
        → evaluated.decision ≡ Verdict.deny
    deny_overrides {rule} listed h e =
        let kept = mem-filter applies rules listed h in
        let found : any (has_effect Effect.deny) (filter applies rules) ≡ true =
          (any-of_mem (has_effect Effect.deny) (filter applies rules) kept (ground arith)) in
        ground (arith, evaluate-verdict_of)

    -- At least one rule applies, and every rule that applies allows.
    abbrev pub Permits : Type 0
    Permits =
        ((rule : PolicyRule) × Memᴰ rule rules
          × (applies rule ≡ true)
          × (rule.effect ≡ Effect.allow))
        × ((rule : PolicyRule) → Memᴰ rule rules → applies rule ≡ true → rule.effect ≡ Effect.allow)

    allow_effect :
        (rule : PolicyRule) → has_effect Effect.allow rule ≡ true → rule.effect ≡ Effect.allow
    allow_effect rule h = ground arith

    other_effects :
        (rule : PolicyRule)
        → has_effect Effect.deny rule ≡ false
        → has_effect Effect.approval rule ≡ false
        → rule.effect ≡ Effect.allow
    other_effects rule h k = ground arith

    permits_sound : verdict_of (filter applies rules) ≡ Verdict.allow → Permits
    permits_sound h =
        let (rule, kept, t) =
          mem-of_any (has_effect Effect.allow) (filter applies rules) (ground arith) in
        let (listed, applied) = mem-of_filter applies rules kept in
        (
          (rule, listed, applied, allow_effect rule t),
          λ r m a.
              let k = mem-filter applies rules m a in
              other_effects r
                (any-false_of_mem (has_effect Effect.deny) (filter applies rules) (ground arith) k)
                (any-false_of_mem (has_effect Effect.approval) (filter applies rules) (ground arith)
                  k),
        )

    none_of :
        (effect : Effect)
        → ((rule : PolicyRule) → rule.effect ≡ Effect.allow → has_effect effect rule ≡ false)
        → Permits
        → any (has_effect effect) (filter applies rules) ≡ false
    none_of effect differs (_, only) =
        elim (Bool-cases (any (has_effect effect) (filter applies rules))) [
          | inl e ↦
              let (r, kept, t) = mem-of_any (has_effect effect) (filter applies rules) e in
              let (m, a) = mem-of_filter applies rules kept in cc (differs r (only r m a))
          | inr e ↦ e
        ]

    permits_complete : Permits → verdict_of (filter applies rules) ≡ Verdict.allow
    permits_complete p =
        let ((rule, listed, applied, effect), _) = p in
        let kept = mem-filter applies rules listed applied in
        let found : any (has_effect Effect.allow) (filter applies rules) ≡ true =
          (any-of_mem (has_effect Effect.allow) (filter applies rules) kept (ground arith)) in
        ground (
          arith,
          none_of Effect.deny (λ r e. ground arith) p,
          none_of Effect.approval (λ r e. ground arith) p,
        )

    -- Default deny: access is allowed exactly when the credential is usable (active, not expired,
    -- for this operation and host), at least one rule applies, and every rule that applies allows.
    pub evaluate-allow_iff : (evaluated.decision ≡ Verdict.allow) ↔ (IsUsable × Permits)
    evaluate-allow_iff = (
      λ h. elim (Bool-cases usable) [
        | inl e ↦ (usable_sound e, permits_sound (ground (arith, evaluate-verdict_of)))
        | inr e ↦ absurd (ground (arith, evaluate-verdict_of))
      ],
      λ (u, p). ground (arith, evaluate-verdict_of, usable_complete u, permits_complete p),
    )

    choose-rule :
        (matching : List PolicyRule) {id : String}
        → (choose matching).rule_id ≡ some id
        → (rule : PolicyRule) × Memᴰ rule matching
          × (rule.id ≡ id)
          × (rule.effect ≡ effect_of (choose matching).decision)
    unfolding choose denied decided
    choose-rule matching {id} h = elim (Option-cases (find (has_effect Effect.deny) matching)) [
      | inr (r, e) ↦
          let (m, t) = find-eq-some (has_effect Effect.deny) matching e in
          (r, m, ground arith, ground arith)
      | inl d ↦ elim (Option-cases (find (has_effect Effect.approval) matching)) [
        | inr (r, e) ↦
            let (m, t) = find-eq-some (has_effect Effect.approval) matching e in
            (r, m, ground arith, ground arith)
        | inl a ↦ elim (Option-cases (find (has_effect Effect.allow) matching)) [
          | inr (r, e) ↦
              let (m, t) = find-eq-some (has_effect Effect.allow) matching e in
              (r, m, ground arith, ground arith)
          | inl n ↦ absurd (ground arith)
        ]
      ]
    ]

    -- The rule that a decision names is a rule of the file that applies, with the decision's effect.
    pub evaluate-rule_id :
        {id : String}
        → evaluated.rule_id ≡ some id
        → (rule : PolicyRule) × Memᴰ rule rules
          × (rule.id ≡ id)
          × (applies rule ≡ true)
          × (rule.effect ≡ effect_of evaluated.decision)
    unfolding evaluate denied
    evaluate-rule_id h = elim (Bool-cases usable) [
      | inl e ↦
          let same = evaluate-usable e in
          let (r, kept, i, t) =
            choose-rule (filter applies rules) (ap (λ d. d.rule_id) (sym same) ∙ h) in
          let (m, a) = mem-of_filter applies rules kept in
          (r, m, i, a, t ∙ ap (λ d. effect_of d.decision) (sym same))
      | inr e ↦ absurd (ground arith)
    ]
