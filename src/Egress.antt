-- ===== src/Egress.antt =====
-- The egress policy of src/services/egress-policy.ts.
pub mod Address
pub mod Ranges
pub mod Target
mod Tests
use keylore.Prelude.{
  ℕ, String, Bool, true, false, Option, none, some, List, [], ◌∷◌, ◌&&◌, ◌||◌, not, ◌==◌, eqb, any,
  if◌then◌else◌, starts_with, drop, ends_with,
}
use keylore.Domain.Config.{KeyLoreConfig}
use keylore.Exec.{Result, ok, thrown}
use keylore.Egress.Address.{
  ParsedInt, int, parse_int, is_loopback_ip, is_blocked_ipv4, is_blocked_ipv6,
}

-- What the code reads of a WHATWG `URL`.
pub record Url : Type 0 where
  pub href : String
  pub protocol : String
  pub hostname : String
  pub port : String

-- The platform: case mapping, the URL parser (`none` when it throws), the tests of `node:net`, and
-- the DNS lookup (`none` when it fails).
pub record Platform : Type 0 where
  pub lower : String → String
  pub parse_url : String → Option Url
  pub is_ipv4 : String → Bool
  pub is_ipv6 : String → Bool
  pub lookup : String → Option (List String)

-- `ports.includes(Number.parseInt(port, 10))`
abbrev pub includes_port : List ℕ → ParsedInt → Bool
includes_port [] n = false
includes_port (p ∷ ps) n = elim n [ int k ↦ eqb p k | _ ↦ false ] || includes_port ps n

module _ (platform : Platform) where
  unfoldable pub match_pattern : String → String → Bool
  match_pattern value pattern =
      let normalized_value = platform.lower value in
      let normalized_pattern = platform.lower pattern in
      if normalized_pattern == "*"
      then true
      else if starts_with normalized_pattern "*."
      then normalized_value == drop 2 normalized_pattern
        || ends_with normalized_value (drop 1 normalized_pattern)
      else normalized_value == normalized_pattern

  unfoldable pub is_blocked_ip : String → Bool
  is_blocked_ip ip =
      if platform.is_ipv4 ip
      then is_blocked_ipv4 ip
      else if platform.is_ipv6 ip
      then is_blocked_ipv6 (platform.lower ip)
      else true

  unfoldable pub resolve_addresses : String → List String
  resolve_addresses hostname = elim (platform.lookup hostname) [
    | some records ↦ records
    | none ↦ []
  ]

  -- `isIP(hostname) > 0 ? [hostname] : await resolveAddresses(hostname)`
  unfoldable pub addresses_of : String → List String
  unfolding resolve_addresses
  addresses_of hostname =
      if platform.is_ipv4 hostname || platform.is_ipv6 hostname
      then hostname ∷ []
      else resolve_addresses hostname

  abbrev pub refused_address : String → Bool
  refused_address address = is_loopback_ip address || is_blocked_ip address

  module _ (config : KeyLoreConfig) where
    abbrev pub host_allowlisted : Url → Bool
    host_allowlisted url = any (match_pattern url.hostname) config.egress_allowed_hosts

    unfoldable pub check_target : Url → Result Url
    check_target url =
        let is_loopback_host = url.hostname == "localhost" in
        let is_loopback_http = url.protocol == "http:" && is_loopback_host in
        if not (url.protocol == "https:") && not is_loopback_http
        then thrown "Only HTTPS targets are allowed, except localhost for local development."
        else if url.protocol == "https:"
            && not (url.port == "")
            && not (includes_port config.egress_allowed_https_ports (parse_int url.port))
            && not (host_allowlisted url)
        then thrown "HTTPS target port is not allowlisted by egress policy."
        else if config.egress_allow_private_ips || host_allowlisted url || is_loopback_host
        then ok url
        else if any refused_address (addresses_of url.hostname)
        then thrown "Target resolves to a blocked private, loopback, or link-local address."
        else ok url

    unfoldable pub validate_egress_target : String → Result Url
    unfolding check_target
    validate_egress_target raw_url = elim (platform.parse_url raw_url) [
      | none ↦ thrown "Invalid URL"
      | some url ↦ check_target url
    ]
