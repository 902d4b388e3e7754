-- ===== src/Egress/Address.antt =====
-- The address tests of src/services/egress-policy.ts, and the text functions that they call.
use Prim.Native.Char.{Char, code}
use keylore.Prelude.{
  ℕ, ◌+◌, ◌-◌, ◌*◌, String, Bool, true, false, List, [], ◌∷◌, map, ◌&&◌, ◌||◌, ◌==◌, leb, ltb, eqb,
  if◌then◌else◌, starts_with, any,
}

-- What `Number.parseInt(text, 10)` returns; `neg n` is the negative number -n.
pub data ParsedInt : Type 0 where
  nan : ParsedInt
  int neg : ℕ → ParsedInt

abbrev is_digit : Char → Bool
is_digit c = leb b'0' (code c) && leb (code c) b'9'

-- The digits at the front of a text, read onto a number.
read_digits : ℕ → String → ℕ
read_digits n String.[] = n
read_digits n (String.◌∷◌ c s) = elim (is_digit c) [
  | true ↦ read_digits (n * 10 + (code c - b'0')) s
  | false ↦ n
]

-- A number needs one digit at least.
abbrev unsigned : String → ParsedInt
unsigned String.[] = nan
unsigned (String.◌∷◌ c s) = if is_digit c then int (read_digits 0 (String.◌∷◌ c s)) else nan

abbrev negated : ParsedInt → ParsedInt
negated nan = nan
negated (int n) = if eqb n 0 then int 0 else neg n
negated (neg n) = neg n

-- Tabs, line ends and the spaces of Unicode.
abbrev is_space : Char → Bool
is_space c =
    (leb 9 (code c) && leb (code c) 13)
    || eqb (code c) 32
    || eqb (code c) 0xa0
    || eqb (code c) 0x1680
    || (leb 0x2000 (code c) && leb (code c) 0x200a)
    || eqb (code c) 0x2028
    || eqb (code c) 0x2029
    || eqb (code c) 0x202f
    || eqb (code c) 0x205f
    || eqb (code c) 0x3000
    || eqb (code c) 0xfeff

skip_spaces : String → String
skip_spaces String.[] = ""
skip_spaces (String.◌∷◌ c s) = elim (is_space c) [ true ↦ skip_spaces s | false ↦ String.◌∷◌ c s ]

signed : String → ParsedInt
unfolding read_digits
signed String.[] = nan
signed (String.◌∷◌ c s) =
    if eqb (code c) b'-'
    then negated (unsigned s)
    else if eqb (code c) b'+'
    then unsigned s
    else unsigned (String.◌∷◌ c s)

unfoldable pub parse_int : String → ParsedInt
unfolding skip_spaces signed
parse_int s = signed (skip_spaces s)

abbrev onto_first : Char → List String → List String
onto_first c [] = (String.◌∷◌ c "") ∷ []
onto_first c (part ∷ parts) = (String.◌∷◌ c part) ∷ parts

-- `text.split(".")`
unfoldable pub split_dots : String → List String
split_dots String.[] = "" ∷ []
split_dots (String.◌∷◌ c s) =
    let rest = split_dots s in if eqb (code c) b'.' then "" ∷ rest else onto_first c rest

unfoldable pub is_loopback_ip : String → Bool
is_loopback_ip ip = ip == "::1" || ip == "127.0.0.1" || starts_with ip "127."

-- The tests on the octets of an address, in the order of the source.
unfoldable pub blocked_octets : ℕ → ℕ → ℕ → Bool
blocked_octets a b c =
    if eqb a 0 || eqb a 10 || eqb a 127
    then true
    else if eqb a 100 && leb 64 b && leb b 127
    then true
    else if eqb a 169 && eqb b 254
    then true
    else if eqb a 172 && leb 16 b && leb b 31
    then true
    else if eqb a 192 && eqb b 0
    then true
    else if eqb a 192 && eqb b 168
    then true
    else if eqb a 192 && eqb b 0 && eqb c 2
    then true
    else if eqb a 198 && (eqb b 18 || eqb b 19 || eqb b 51) && eqb c 100
    then true
    else if eqb a 203 && eqb b 0 && eqb c 113
    then true
    else leb 224 a

-- `NaN`, a negative number or one above 255
abbrev pub bad_octet : ParsedInt → Bool
bad_octet nan = true
bad_octet (int n) = ltb 255 n
bad_octet (neg n) = true

-- Only four octets, each from 0 to 255, reach the tests.
unfoldable pub blocked_parts : List ParsedInt → Bool
unfolding blocked_octets
blocked_parts (int a ∷ int b ∷ int c ∷ d ∷ []) =
    if any bad_octet (int a ∷ int b ∷ int c ∷ d ∷ []) then true else blocked_octets a b c
blocked_parts _ = true

unfoldable pub is_blocked_ipv4 : String → Bool
unfolding split_dots parse_int blocked_parts
is_blocked_ipv4 ip = blocked_parts (map parse_int (split_dots ip))

-- The address comes in lower case.
unfoldable pub is_blocked_ipv6 : String → Bool
is_blocked_ipv6 normalized =
    normalized == "::"
    || normalized == "::1"
    || starts_with normalized "fc"
    || starts_with normalized "fd"
    || starts_with normalized "fe8"
    || starts_with normalized "fe9"
    || starts_with normalized "fea"
    || starts_with normalized "feb"
    || starts_with normalized "::ffff:127."
    || starts_with normalized "::ffff:10."
    || starts_with normalized "::ffff:192.168."
    || starts_with normalized "::ffff:172.16."
    || starts_with normalized "::ffff:172.17."
    || starts_with normalized "::ffff:172.18."
    || starts_with normalized "::ffff:172.19."
    || starts_with normalized "::ffff:172.2"
    || starts_with normalized "::ffff:169.254."
