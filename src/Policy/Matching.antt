-- ===== src/Policy/Matching.antt =====
-- What `matchPattern` of src/services/policy-engine.ts accepts.
use text.Mathlib.TextLemmas.{nil-append, cons-append}
use keylore.Prelude.{
  String, ◌≡◌, ◌↔◌, ◌⊎◌, inl, inr, refl, sym, ap, ◌∙◌, true, false, ◌||◌, arith, ◌==◌, eq_iff,
  Bool-cases, ◌+++◌, drop, starts_with, starts_with_sound, starts_with-append, ends_with,
  ends_with_sound, ends_with-append,
}
use keylore.Policy.{match_normalized, match_pattern}

-- A pattern `*.domain`.
abbrev pub IsSuffixPattern : String → Type 0
IsSuffixPattern pattern = (domain : String) × (pattern ≡ "*." +++ domain)

-- The names that a pattern stands for, both in lower case: the domain of `*.domain` and every name
-- below it; of any other pattern, itself.
abbrev pub Covers : String → String → Type 0
Covers pattern value =
    ((domain : String) × (pattern ≡ "*." +++ domain)
      × ((value ≡ domain) ⊎ ((label : String) × (value ≡ label +++ "." +++ domain))))
    ⊎ ((¬ IsSuffixPattern pattern) × (value ≡ pattern))

drop_star : (domain : String) → drop 1 ("*." +++ domain) ≡ "." +++ domain
drop_star domain = ap (drop 1) (cons-append "*" "." domain)

drop_star_dot : (domain : String) → drop 2 ("*." +++ domain) ≡ domain
drop_star_dot domain =
    ap (drop 2) (cons-append "*" "." domain)
    ∙ ap (drop 1) (cons-append "." "" domain)
    ∙ nil-append domain

match_normalized-domain :
    (value domain : String)
    → match_normalized value ("*." +++ domain)
      ≡ (value == domain || ends_with value ("." +++ domain))
match_normalized-domain value domain =
    rw (starts_with-append "*." domain, drop_star domain, drop_star_dot domain) refl

match_normalized-plain :
    (value pattern : String)
    → ¬ IsSuffixPattern pattern
    → match_normalized value pattern ≡ (value == pattern)
match_normalized-plain value pattern h = elim (Bool-cases (starts_with pattern "*.")) [
  | inl e ↦ absurd (h (starts_with_sound pattern "*." e))
  | inr e ↦ rw e refl
]

covered_of_domain :
    (value domain : String)
    → (value == domain || ends_with value ("." +++ domain)) ≡ true
    → (value ≡ domain) ⊎ ((label : String) × (value ≡ label +++ "." +++ domain))
covered_of_domain value domain h = elim (Bool-cases (value == domain)) [
  | inl e ↦ inl ((eq_iff value domain).0 e)
  | inr e ↦ inr (ends_with_sound value ("." +++ domain) (ground arith))
]

domain_of_covered :
    (value domain : String)
    → (value ≡ domain) ⊎ ((label : String) × (value ≡ label +++ "." +++ domain))
    → (value == domain || ends_with value ("." +++ domain)) ≡ true
domain_of_covered value domain (inl e) = rw ((eq_iff value domain).1 e) refl
domain_of_covered value domain (inr (label, e)) =
    let below : ends_with value ("." +++ domain) ≡ true =
      (rw e (ends_with-append label ("." +++ domain))) in
    ground arith

pub match_normalized_sound :
    (value pattern : String) → match_normalized value pattern ≡ true → Covers pattern value
match_normalized_sound value pattern h = elim (Bool-cases (starts_with pattern "*.")) [
  | inl e ↦
      let (domain, same) = starts_with_sound pattern "*." e in
      inl (
        domain,
        same,
        covered_of_domain value domain (
            sym (match_normalized-domain value domain)
            ∙ ap (match_normalized value) (sym same)
            ∙ h),
      )
  | inr e ↦
      let plain : ¬ IsSuffixPattern pattern =
        (λ (domain, same). absurd (suffix_starts domain same e)) in
      inr (plain, (eq_iff value pattern).0 (sym (match_normalized-plain value pattern plain) ∙ h))
]
  where
    suffix_starts :
        (domain : String) → pattern ≡ "*." +++ domain → starts_with pattern "*." ≡ false → ⊥
    suffix_starts domain same e =
        cc (ap (λ p. starts_with p "*.") same, starts_with-append "*." domain)

pub match_normalized_complete :
    (value pattern : String) → Covers pattern value → match_normalized value pattern ≡ true
match_normalized_complete value pattern (inl (domain, same, c)) =
    ap (match_normalized value) same
    ∙ match_normalized-domain value domain
    ∙ domain_of_covered value domain c
match_normalized_complete value pattern (inr (plain, e)) =
    match_normalized-plain value pattern plain ∙ (eq_iff value pattern).1 e

-- Under any case mapping, a value matches a pattern exactly when the pattern is `*` or covers it
-- in lower case: for `*.domain` the domain itself and all names below it, else the same text.
pub match_pattern_iff :
    (lower : String → String) (value pattern : String)
    → (match_pattern lower value pattern ≡ true)
      ↔ ((pattern ≡ "*") ⊎ Covers (lower pattern) (lower value))
unfolding match_pattern
match_pattern_iff lower value pattern = elim (Bool-cases (pattern == "*")) [
  | inl e ↦ rw e ((λ h. inl ((eq_iff pattern "*").0 e)), (λ h. refl))
  | inr e ↦
      rw e ((λ h. inr (match_normalized_sound (lower value) (lower pattern) h)), (λ c. other e c))
]
  where
    other :
        (pattern == "*") ≡ false
        → (pattern ≡ "*") ⊎ Covers (lower pattern) (lower value)
        → match_normalized (lower value) (lower pattern) ≡ true
    other e (inl same) = cc ((eq_iff pattern "*").1 same)
    other e (inr c) = match_normalized_complete (lower value) (lower pattern) c
