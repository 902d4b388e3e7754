-- ===== src/Broker/Proxy/Headers.antt =====
-- The headers of an outgoing request of src/services/broker-service.ts.
use keylore.Prelude.{
  String, ◌≡◌, refl, sym, ap, ◌∙◌, true, false, List, [], ◌∷◌, ◌==◌, if◌then◌else◌, Bool-cases, inl,
  inr, eq_iff, eq_refl, arith, Option, none, some, or_else, includes, subst, Bool,
}
use keylore.Domain.Access.{AccessRequestInput}
use keylore.Egress.{Url}
use keylore.World.Host.{Host}
use keylore.Broker.Proxy.{
  outbound_request, put_field, put_fields, sanitize_headers, blocked_headers, default_headers,
}

-- The value of a field.
unfoldable pub field : String → List (String × String) → Option String
field name [] = none
field name ((k, v) ∷ rest) = let r = field name rest in if k == name then some v else r

put_field-same :
    (fields : List (String × String)) (k v : String) → field k (put_field fields (k, v)) ≡ some v
unfolding field put_field
put_field-same [] k v = rw (eq_refl k) refl
put_field-same ((j, u) ∷ fields) k v = elim (Bool-cases (j == k)) [
  | inl e ↦ rw (e, e) refl
  | inr e ↦ rw (e, e) (put_field-same fields k v)
]

put_field-other :
    (fields : List (String × String)) (k v name : String)
    → (k == name) ≡ false
    → field name (put_field fields (k, v)) ≡ field name fields
unfolding field put_field
put_field-other [] k v name h = rw h refl
put_field-other ((j, u) ∷ fields) k v name h = elim (Bool-cases (j == k)) [
  | inl e ↦
      let same : j ≡ k = (eq_iff j k).0 e in
      let other : (j == name) ≡ false = (ap (λ t. t == name) same ∙ h) in rw (e, other) refl
  | inr e ↦ elim (Bool-cases (j == name)) [
    | inl f ↦ rw (e, f) refl
    | inr f ↦ rw (e, f) (put_field-other fields k v name h)
  ]
]

put_fields-other :
    (more fields : List (String × String)) (name : String)
    → field name more ≡ none
    → field name (put_fields fields more) ≡ field name fields
unfolding field put_fields
put_fields-other [] fields name h = refl
put_fields-other ((k, v) ∷ more) fields name h = elim (Bool-cases (k == name)) [
  | inl e ↦ absurd (ground arith)
  | inr e ↦
      put_fields-other more (put_field fields (k, v)) name (ground (arith, h, e))
      ∙ put_field-other fields k v name e
]

sanitize-absent :
    (lower : String → String) (headers : List (String × String)) (name : String)
    → includes blocked_headers (lower name) ≡ true
    → field name (sanitize_headers lower headers) ≡ none
unfolding field sanitize_headers
sanitize-absent lower [] name h = refl
sanitize-absent lower ((k, v) ∷ headers) name h =
    elim (Bool-cases (includes blocked_headers (lower k))) [
      | inl e ↦ rw (e) (sanitize-absent lower headers name h)
      | inr e ↦
          let rest = sanitize-absent lower headers name h in
          elim (Bool-cases (k == name)) [
            | inl f ↦
                absurd
                  (cc (ap (λ t. includes blocked_headers (lower t)) ((eq_iff k name).0 f), h, e))
            | inr f ↦ rw (e, f) rest
          ]
    ]

-- The first of two values that is there.
abbrev pub preferred : Option String → Option String → Option String
preferred none other = other
preferred (some v) other = some v

-- The value of the last field of that name.
unfoldable pub last_field : String → List (String × String) → Option String
last_field name [] = none
last_field name ((k, v) ∷ rest) =
    preferred (last_field name rest) (if k == name then some v else none)

put_field-field :
    (fields : List (String × String)) (k v name : String)
    → field name (put_field fields (k, v)) ≡ (if k == name then some v else field name fields)
put_field-field fields k v name = elim (Bool-cases (k == name)) [
  | inl e ↦ rw e (
      subst (λ t. field t (put_field fields (k, v)) ≡ some v) ((eq_iff k name).0 e)
        (put_field-same fields k v))
  | inr e ↦ rw e (put_field-other fields k v name e)
]

preferred-none : (o : Option String) → preferred o none ≡ o
preferred-none none = refl
preferred-none (some v) = refl

preferred_assoc :
    (a b c : Option String) → preferred a (preferred b c) ≡ preferred (preferred a b) c
preferred_assoc none b c = refl
preferred_assoc (some v) b c = refl

preferred-if :
    (b : Bool) (v : String) (other : Option String)
    → (if b then some v else other) ≡ preferred (if b then some v else none) other
preferred-if true v other = refl
preferred-if false v other = refl

-- Fields that are put on top of others win, the last of a name before the earlier ones.
put_fields-field :
    (more fields : List (String × String)) (name : String)
    → field name (put_fields fields more) ≡ preferred (last_field name more) (field name fields)
unfolding put_fields last_field
put_fields-field [] fields name = refl
put_fields-field ((k, v) ∷ more) fields name =
    put_fields-field more (put_field fields (k, v)) name
    ∙ ap (preferred (last_field name more))
        (put_field-field fields k v name ∙ preferred-if (k == name) v (field name fields))
    ∙ preferred_assoc (last_field name more) _ _

abbrev blocked : (String → String) → String → Bool
blocked lower name = includes blocked_headers (lower name)

sanitize-last_field :
    (lower : String → String) (headers : List (String × String)) (name : String)
    → last_field name (sanitize_headers lower headers)
      ≡ (if blocked lower name then none else last_field name headers)
unfolding last_field sanitize_headers
sanitize-last_field lower [] name = ground arith
sanitize-last_field lower ((k, v) ∷ headers) name =
    let rest = sanitize-last_field lower headers name in
    elim (Bool-cases (blocked lower k)) [
      | inl e ↦ elim (Bool-cases (k == name)) [
        | inl f ↦
            let same = ap (blocked lower) ((eq_iff k name).0 f) in
            let shut : blocked lower name ≡ true = (sym same ∙ e) in
            rw (e, f, shut) (rw shut at rest)
        | inr f ↦ rw (e, f, preferred-none (last_field name headers)) rest
      ]
      | inr e ↦ elim (Bool-cases (k == name)) [
        | inl f ↦
            let same = ap (blocked lower) ((eq_iff k name).0 f) in
            let free : blocked lower name ≡ false = (sym same ∙ e) in
            rw (e, f, free) (ap (λ o. preferred o (some v)) (rw free at rest))
        | inr f ↦ rw (e, f, preferred-none (last_field name headers)) (preferred-none _ ∙ rest)
      ]
    ]

module _ (host : Host) (input : AccessRequestInput) (url : Url) (header secret : String) where
  abbrev sent : List (String × String)
  sent = (outbound_request host input url ((header, secret) ∷ [])).headers

  -- What a header of that name should be: the adapter's, else the last one the caller asked for, if the
  -- name is not blocked, else the default.
  unfoldable pub expected : String → Option String
  expected name = preferred (if header == name then some secret else none) (
      preferred
        (if blocked host.lower name then none else last_field name (or_else input.headers []))
        (if "accept" == name then some "application/json, text/plain;q=0.9, */*;q=0.8" else none))

  -- For every name, letter case included, the field of that name in the headers object handed to `fetch`
  -- is the one that the adapter resolved; else the last that the caller asked for, if the lower-case
  -- name is not blocked; else the default accept header; else there is none.
  pub outbound_request-field : (name : String) → field name sent ≡ expected name
  unfolding outbound_request put_fields field expected
  outbound_request-field name =
      put_field-field _ header secret name
      ∙ preferred-if (header == name) secret _
      ∙ ap (preferred (if header == name then some secret else none)) (
          put_fields-field (sanitize_headers host.lower (or_else input.headers [])) _ name
          ∙ ap (λ o. preferred o (field name default_headers))
              (sanitize-last_field host.lower (or_else input.headers []) name))

  -- A header whose lower-case name is `authorization`, `proxy-authorization` or `cookie`, and which is
  -- neither the adapter's header nor spelled `accept`, does not go out, whatever the caller asks for.
  pub blocked_header_absent :
      (name : String)
      → includes blocked_headers (host.lower name) ≡ true
      → (header == name) ≡ false
      → ("accept" == name) ≡ false
      → field name sent ≡ none
  unfolding outbound_request put_fields field
  blocked_header_absent name blocked other unlike =
      put_field-other _ header secret name other
      ∙ put_fields-other (sanitize_headers host.lower (or_else input.headers [])) _ name
          (sanitize-absent host.lower _ name blocked)
      ∙ rw unlike refl
