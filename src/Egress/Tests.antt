-- ===== src/Egress/Tests.antt =====
-- The egress policy on concrete targets.
use keylore.Prelude.{◌≡◌, refl, ◌↔◌, true, some, arith, any}
use keylore.Exec.{ok}
use keylore.Egress.{validate_egress_target, check_target, addresses_of, is_blocked_ip}
use keylore.Egress.Address.{blocked_octets, is_blocked_ipv4}
use keylore.Egress.Ranges.{in_range, address, blocked_ranges, blocked_octets-ranges}
use keylore.Egress.Target.{IsAcceptable, validate_egress_target_iff, unresolved_let_through}
use keylore.Egress.Address
use keylore.Fixtures.{platform, config, repos, repos_url, hidden_url}

private_is_blocked : is_blocked_ipv4 "10.1.2.3" ≡ true
unfolding is_blocked_ipv4
private_is_blocked = refl

public_is_let_through : validate_egress_target platform config repos ≡ ok repos_url
unfolding validate_egress_target addresses_of Address.is_loopback_ip is_blocked_ip is_blocked_ipv4
public_is_let_through = refl

blocked_octets-ranges_example :
    blocked_octets 172 16 0 ≡ any (in_range (address 172 16 0 1)) blocked_ranges
blocked_octets-ranges_example =
    blocked_octets-ranges 172 16 0 1 (omega arith) (omega arith) (omega arith) (omega arith)

validate_egress_target_iff_example :
    (validate_egress_target platform config repos ≡ ok repos_url)
    ↔ ((platform.parse_url repos ≡ some repos_url) × IsAcceptable platform config repos_url)
validate_egress_target_iff_example = validate_egress_target_iff platform config repos repos_url

unresolved_let_through_example : check_target platform config hidden_url ≡ ok hidden_url
unresolved_let_through_example =
    unresolved_let_through platform config hidden_url refl refl refl refl refl
