-- ===== src/Broker/Access/Sending.antt =====
-- What `executeAllowedRequest` of src/services/broker-service.ts sends.
use keylore.Prelude.{String, ◌≡◌, refl, ◌∙◌, Option, List, [], ◌∷◌, ◌++◌, ◌⊎◌, inl, inr}
use keylore.Exec.{Result, ok, Exec}
use keylore.Exec.Keeps.{Keeps, Keeps-bind, Keeps-return, then_run-Keeps}
use keylore.Domain.{AuthContext, CredentialRecord}
use keylore.Domain.Access.{AccessRequestInput, AccessMode, HttpResult}
use keylore.Domain.Reviews.{BreakGlassRequest}
use keylore.Domain.Config.{KeyLoreConfig}
use keylore.Policy.{PolicyDecision}
use keylore.Egress.{Url}
use keylore.World.{World, Outbound}
use keylore.World.Host.{Host, ResolvedSecret}
use keylore.World.Quiet.{Quiet, Quiet-Keeps}
use keylore.Audit.Frame.{record_event-Quiet}
use keylore.Broker.Proxy.{outbound_request, execute_proxy_request}
use keylore.Broker.Evaluate.{Result-cases}
use keylore.Broker.Access.{record_credential_use, execute_allowed_request}

-- No request with a credential was sent, after those sent before.
abbrev pub Silent : {A : Type 0} → List Outbound → Result A × World → Type 0
Silent sent r = r.1.outbound ≡ sent

module _ (host : Host) (config : KeyLoreConfig) (context : AuthContext)
    (input : AccessRequestInput) where
  -- What one call of `fetch` sends: the request, and those by which redirects are followed.
  abbrev pub fetched : Outbound → List Outbound
  fetched request = request ∷ host.redirected request

  -- One call of `fetch` was made: to the url, with what the credential's adapter resolved.
  pub record SentOnce {A : Type 0} (credential : CredentialRecord) (url : Url)
      (before : List Outbound) (r : Result A × World) : Type 0 where
    pub resolved : ResolvedSecret
    pub by_adapter : host.resolve credential ≡ ok resolved
    pub sent :
        r.1.outbound
        ≡ before
          ++ fetched
              (outbound_request host input url ((resolved.header_name, resolved.header_value) ∷ []))

  proxy_sends :
      (url : Url) (secret : String) (auth : List (String × String)) (w : World)
      → (execute_proxy_request host config input url secret auth w).1.outbound
        ≡ w.outbound ++ fetched (outbound_request host input url auth)
  unfolding execute_proxy_request
  proxy_sends url secret auth w =
      elim (Result-cases (host.fetch (outbound_request host input url auth))) [
        | inl (e, f) ↦ rw (execute_proxy_request, f) refl
        | inr (r, f) ↦ rw (execute_proxy_request, f) refl
      ]

  -- What has been sent stays as it is.
  module _ (sent : List Outbound) where
    Quiet-sends : {A : Type 0} (m : Exec World A) → Quiet m → Keeps (λ w. w.outbound ≡ sent) m
    Quiet-sends m q = Quiet-Keeps (λ w. w.outbound ≡ sent) m q (λ v w s p. s.outbound ∙ p)

    record_credential_use_sends :
        (mode : AccessMode) (credential : CredentialRecord) (d : PolicyDecision) (id : String)
        (url : Url) (grant : Option BreakGlassRequest) (result : HttpResult)
        → Keeps
            (λ w. w.outbound ≡ sent)
            (record_credential_use host config mode context input credential d id url grant result)
    unfolding record_credential_use
    record_credential_use_sends mode credential d id url grant result =
        Keeps-bind _ _ (Quiet-sends _ (record_event-Quiet host _)) (λ _. Keeps-return _)

  -- A use of a credential sends nothing, or makes one call of `fetch`.
  pub execute_sends :
      (mode : AccessMode) (credential : CredentialRecord) (d : PolicyDecision) (id : String)
      (url : Url) (grant : Option BreakGlassRequest) (w : World)
      → Silent w.outbound
          (execute_allowed_request host config mode context input credential d id url grant w)
        ⊎ SentOnce credential url w.outbound
            (execute_allowed_request host config mode context input credential d id url grant w)
  unfolding execute_allowed_request
  execute_sends mode credential d id url grant w = elim (Result-cases (host.resolve credential)) [
    | inl (e, f) ↦ inl (rw (execute_allowed_request, f) refl)
    | inr (s, f) ↦
        let auth : List (String × String) = (s.header_name, s.header_value) ∷ [] in
        inr (record {
          resolved = s;
          by_adapter = f;
          sent =
              rw (execute_allowed_request, f)
                (then_run-Keeps
                  {P = λ v.
                    v.outbound ≡ w.outbound ++ fetched (outbound_request host input url auth)}
                  (execute_proxy_request host config input url s.secret auth w)
                  (record_credential_use host config mode context input credential d id url grant)
                  (proxy_sends url s.secret auth w)
                  (record_credential_use_sends
                    (w.outbound ++ fetched (outbound_request host input url auth)) mode credential d
                    id url grant));
        })
  ]
