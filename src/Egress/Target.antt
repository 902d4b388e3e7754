-- ===== src/Egress/Target.antt =====
-- Which targets `validateEgressTarget` of src/services/egress-policy.ts lets through.
use keylore.Prelude.{
  String, ◌≡◌, ◌≢◌, ◌↔◌, ◌⊎◌, inl, inr, sym, ap, ◌∙◌, subst, true, false, none, some, arith, eq_iff,
  any, All, Bool-cases, Option-cases, All-of_any-false, any-false-of_All,
}
use keylore.Domain.Config.{KeyLoreConfig}
use keylore.Exec.{ok}
use keylore.Egress.Address.{parse_int}
use keylore.Egress.{
  Url, Platform, includes_port, resolve_addresses, addresses_of, refused_address, host_allowlisted,
  check_target, validate_egress_target,
}

module _ (platform : Platform) (config : KeyLoreConfig) where
  pub record IsAcceptable (url : Url) : Type 0 where
    pub scheme :
        (url.protocol ≡ "https:") ⊎ ((url.protocol ≡ "http:") × (url.hostname ≡ "localhost"))
    pub port :
        url.protocol ≡ "https:"
        → url.port ≢ ""
        → (includes_port config.egress_allowed_https_ports (parse_int url.port) ≡ true)
          ⊎ (host_allowlisted platform config url ≡ true)
    pub address :
        (config.egress_allow_private_ips ≡ true)
        ⊎ ((host_allowlisted platform config url ≡ true)
            ⊎ ((url.hostname ≡ "localhost")
                ⊎ All
                    (λ a. refused_address platform a ≡ false)
                    (addresses_of platform url.hostname)))

  check_target_sound :
      (url u : Url) → check_target platform config url ≡ ok u → (u ≡ url) × IsAcceptable url
  unfolding check_target
  check_target_sound url u h = (
    ground arith,
    record {
      scheme = ground (
        arith,
        eq_iff url.protocol "https:",
        eq_iff url.protocol "http:",
        eq_iff url.hostname "localhost",
      );
      port = λ s p. ground (arith, eq_iff url.protocol "https:", eq_iff url.port "");
      address =
          elim (Bool-cases (any (refused_address platform) (addresses_of platform url.hostname))) [
            | inl e ↦ ground (arith, eq_iff url.hostname "localhost")
            | inr e ↦ inr (inr (inr (All-of_any-false _ _ e)))
          ];
    },
  )

  exempt_or_clear :
      (url : Url)
      → IsAcceptable url
      → (config.egress_allow_private_ips ≡ true)
        ⊎ ((host_allowlisted platform config url ≡ true)
            ⊎ ((url.hostname ≡ "localhost")
                ⊎ (any (refused_address platform) (addresses_of platform url.hostname) ≡ false)))
  exempt_or_clear url h = from h.address
    where
      from :
          (config.egress_allow_private_ips ≡ true)
            ⊎ ((host_allowlisted platform config url ≡ true)
                ⊎ ((url.hostname ≡ "localhost")
                    ⊎ All
                        (λ a. refused_address platform a ≡ false)
                        (addresses_of platform url.hostname)))
          → (config.egress_allow_private_ips ≡ true)
            ⊎ ((host_allowlisted platform config url ≡ true)
                ⊎ ((url.hostname ≡ "localhost")
                    ⊎ (any (refused_address platform) (addresses_of platform url.hostname)
                        ≡ false)))
      from (inl e) = inl e
      from (inr (inl e)) = inr (inl e)
      from (inr (inr (inl e))) = inr (inr (inl e))
      from (inr (inr (inr e))) = inr (inr (inr (any-false-of_All _ _ e)))

  check_target_complete : (url : Url) → IsAcceptable url → check_target platform config url ≡ ok url
  unfolding check_target
  check_target_complete url h = ground (
    arith,
    exempt_or_clear url h,
    h.port,
    h.scheme,
    eq_iff url.protocol "https:",
    eq_iff url.protocol "http:",
    eq_iff url.hostname "localhost",
    eq_iff url.port "",
  )

  -- A target is let through exactly when its URL parses, its scheme is HTTPS (or HTTP to localhost),
  -- its HTTPS port is the default, listed or excused by the host allowlist, and private addresses
  -- are allowed, the host is allowlisted, it is localhost, or none of its addresses is refused.
  pub validate_egress_target_iff :
      (raw_url : String) (url : Url)
      → (validate_egress_target platform config raw_url ≡ ok url)
        ↔ ((platform.parse_url raw_url ≡ some url) × IsAcceptable url)
  unfolding validate_egress_target
  validate_egress_target_iff raw_url url = (
    λ h. elim (Option-cases (platform.parse_url raw_url)) [
      | inl e ↦ absurd (ground arith)
      | inr (u, e) ↦
          let (same, a) = check_target_sound u url (ground arith) in
          (e ∙ ap some (sym same), subst IsAcceptable (sym same) a)
    ],
    λ (e, a). rw (e, validate_egress_target) (check_target_complete url a),
  )

  -- An HTTPS target on the default port is let through if its host name is neither an IPv4 nor an IPv6
  -- address and does not resolve.
  pub unresolved_let_through :
      (url : Url)
      → url.protocol ≡ "https:"
      → url.port ≡ ""
      → platform.is_ipv4 url.hostname ≡ false
      → platform.is_ipv6 url.hostname ≡ false
      → platform.lookup url.hostname ≡ none
      → check_target platform config url ≡ ok url
  unfolding resolve_addresses addresses_of
  unresolved_let_through url scheme port v4 v6 failed = check_target_complete url (record {
    scheme = inl scheme;
    port = λ _ p. absurd (p port);
    address = inr (inr (inr (rw (v4, v6, failed, resolve_addresses) tt)));
  })
