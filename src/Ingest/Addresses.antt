-- ===== src/Ingest/Addresses.antt =====
-- app/ingest/urlguard.py: which addresses may be connected to, and the numeric spellings of IPv4
-- addresses. An address is its version and its number. The predicates of the standard library's
-- `ipaddress` follow tables that change between interpreters, so they are an argument; the mapped
-- and tunnelled addresses are computed here as that module computes them.
use sre_tab.Common.{
  ltb, leb, eqb, if◌then◌else◌, length, drop, Text, codes, lower, is_nil, rstrip, starts_with,
  split, text_eq, nat_eq, exists_row, every, read_digits, ℕ, ◌+◌, ◌-◌, ◌*◌, ◌/◌, ◌%◌, ◌^◌, Bool,
  true, not, ◌&&◌, Option, none, some, List, [], ◌∷◌, ◌++◌,
}

pub data IpAddress : Type 0 where
  v4 v6 : ℕ → IpAddress

-- What the source asks `ipaddress` of an address.
pub record Predicates : Type 0 where
  pub is_unspecified : IpAddress → Bool
  pub is_loopback : IpAddress → Bool
  pub is_link_local : IpAddress → Bool
  pub is_multicast : IpAddress → Bool
  pub is_private : IpAddress → Bool
  pub is_reserved : IpAddress → Bool
  pub is_global : IpAddress → Bool

-- `ip_network`: the version, the network address, and the number of host bits.
pub record Network : Type 0 where
  pub version : ℕ
  pub address : ℕ
  pub host_bits : ℕ

abbrev pub version : IpAddress → ℕ
version (v4 n) = 4
version (v6 n) = 6

abbrev pub number : IpAddress → ℕ
number (v4 n) = n
number (v6 n) = n

abbrev pub net4 : (a b c d prefix : ℕ) → Network
net4 a b c d prefix = record {
  version = 4;
  address = a * 2 ^ 24 + b * 2 ^ 16 + c * 2 ^ 8 + d;
  host_bits = 32 - prefix;
}

-- A network of IPv6 by its two leading groups, or by the three last.
abbrev pub net6 : (first second prefix : ℕ) → Network
net6 first second prefix = record {
  version = 6;
  address = first * 2 ^ 112 + second * 2 ^ 96;
  host_bits = 128 - prefix;
}

-- `BLOCKED_NETWORKS`
unfoldable pub blocked_networks : List Network
blocked_networks =
    net4 0 0 0 0 8
    ∷ net4 10 0 0 0 8
    ∷ net4 100 64 0 0 10
    ∷ net4 127 0 0 0 8
    ∷ net4 169 254 0 0 16
    ∷ net4 172 16 0 0 12
    ∷ net4 192 0 0 0 24
    ∷ net4 192 0 2 0 24
    ∷ net4 192 88 99 0 24
    ∷ net4 192 168 0 0 16
    ∷ net4 198 18 0 0 15
    ∷ net4 198 51 100 0 24
    ∷ net4 203 0 113 0 24
    ∷ net4 224 0 0 0 4
    ∷ net4 240 0 0 0 4
    ∷ net4 255 255 255 255 32
    ∷ net6 0 0 128
    ∷ record { version = 6; address = 1; host_bits = 0 }
    ∷ record { version = 6; address = 65535 * 2 ^ 32; host_bits = 32 }
    ∷ net6 100 65435 96
    ∷ record { version = 6; address = 100 * 2 ^ 112 + 65435 * 2 ^ 96 + 2 ^ 80; host_bits = 80 }
    ∷ net6 256 0 64
    ∷ net6 8193 0 32
    ∷ net6 8193 3512 32
    ∷ net6 8194 0 16
    ∷ net6 64512 0 7
    ∷ net6 65152 0 10
    ∷ net6 65280 0 8
    ∷ []

-- `ip.version == network.version and ip in network`
unfoldable pub in_network : IpAddress → Network → Bool
in_network ip network =
    eqb (version ip) network.version
    && eqb (number ip / 2 ^ network.host_bits) (network.address / 2 ^ network.host_bits)

unfoldable pub is_blocked : IpAddress → Bool
unfolding in_network blocked_networks
is_blocked ip = exists_row (in_network ip) blocked_networks

-- `classify_address` past the unwrapping, in the order of its tests.
unfoldable pub classify_plain : Predicates → IpAddress → Option Text
unfolding is_blocked
classify_plain p ip =
    if p.is_unspecified ip
    then some (codes "unspecified")
    else if p.is_loopback ip
    then some (codes "loopback")
    else if p.is_link_local ip
    then some (codes "link-local")
    else if p.is_multicast ip
    then some (codes "multicast")
    else if p.is_private ip
    then some (codes "private")
    else if p.is_reserved ip
    then some (codes "reserved")
    else if not (p.is_global ip)
    then some (codes "non-global")
    else if is_blocked ip
    then some (codes "blocked-range")
    else none

-- `ipv4_mapped`
unfoldable pub ipv4_mapped : IpAddress → Option IpAddress
ipv4_mapped (v4 n) = none
ipv4_mapped (v6 n) = if eqb (n / 2 ^ 32) 65535 then some (v4 (n % 2 ^ 32)) else none

-- `classify_address(mapped) or "blocked-range"`
unfoldable pub or_blocked : Option Text → Option Text
or_blocked none = some (codes "blocked-range")
or_blocked (some reason) = some reason

unfoldable pub classify_mapped : Predicates → IpAddress → Option IpAddress → Option Text
unfolding classify_plain or_blocked
classify_mapped p ip none = classify_plain p ip
classify_mapped p ip (some mapped) = or_blocked (classify_plain p mapped)

-- `classify_address`: a reason to refuse, or nothing. A mapped address is an IPv4 address, and wraps
-- no other.
unfoldable pub classify_address : Predicates → IpAddress → Option Text
unfolding classify_mapped ipv4_mapped
classify_address p ip = classify_mapped p ip (ipv4_mapped ip)

-- `sixtofour`
unfoldable pub sixtofour : ℕ → List IpAddress
sixtofour n = if eqb (n / 2 ^ 112) 8194 then v4 (n / 2 ^ 80 % 2 ^ 32) ∷ [] else []

-- `teredo`: the server, and the client with its bits inverted.
unfoldable pub teredo : ℕ → List IpAddress
teredo n =
    if eqb (n / 2 ^ 96) (8193 * 2 ^ 16)
    then v4 (n / 2 ^ 64 % 2 ^ 32) ∷ v4 (2 ^ 32 - 1 - n % 2 ^ 32) ∷ []
    else []

-- `_embedded_addresses`
unfoldable pub embedded_addresses : IpAddress → List IpAddress
unfolding sixtofour teredo
embedded_addresses (v4 n) = []
embedded_addresses (v6 n) = sixtofour n ++ teredo n

-- The first of two reasons.
unfoldable pub or_first : Option Text → Option Text → Option Text
or_first none later = later
or_first (some reason) later = some reason

-- The first reason among the embedded addresses.
unfoldable pub first_reason : Predicates → List IpAddress → Option Text
unfolding classify_address or_first
first_reason p [] = none
first_reason p (ip ∷ ips) = or_first (classify_address p ip) (first_reason p ips)

-- `assert_address_allowed`: the reason of the error that it raises, or nothing.
unfoldable pub refused_address : Predicates → IpAddress → Option Text
unfolding classify_address embedded_addresses first_reason or_first
refused_address p ip = or_first (classify_address p ip) (first_reason p (embedded_addresses ip))

-- `int(part, 16)` after "0x" and `int(part, 8)` after "0". An underscore may follow the prefix.
unfoldable pub after_prefix : ℕ → Text → Option ℕ
unfolding read_digits
after_prefix base [] = none
after_prefix base (c ∷ s) =
    if eqb c b'_' then read_digits base true 0 s else read_digits base true 0 (c ∷ s)

-- One part of `parse_numeric_ipv4`, of ASCII characters.
unfoldable pub numeric_part : Text → Option ℕ
unfolding after_prefix rstrip
numeric_part part =
    let trimmed = rstrip part in
    if starts_with (codes "0x") (lower part)
    then after_prefix 16 (drop 2 trimmed)
    else if starts_with (codes "0") part && ltb 1 (length part)
    then (if starts_with (codes "0o") (lower trimmed)
        then after_prefix 8 (drop 2 trimmed)
        else read_digits 8 true 0 trimmed)
    else if not (is_nil part) && every (λ c. leb b'0' c && leb c b'9') part
    then read_digits 10 true 0 part
    else none

-- The values of all parts, or nothing.
unfoldable pub numeric_parts : List Text → Option (List ℕ)
unfolding numeric_part
numeric_parts [] = some []
numeric_parts (part ∷ parts) =
    let rest = numeric_parts parts in
    elim (numeric_part part) [
      | none ↦ none
      | some value ↦ elim rest [ none ↦ none | some values ↦ some (value ∷ values) ]
    ]

-- The last part absorbs the bytes that are left: `packed` holds the parts before.
unfoldable pub pack_parts : (packed remaining : ℕ) → List ℕ → Option IpAddress
pack_parts packed remaining [] = none
pack_parts packed remaining (last ∷ []) =
    if ltb last (2 ^ (8 * remaining)) then some (v4 (packed * 2 ^ (8 * remaining) + last)) else none
pack_parts packed remaining (value ∷ next ∷ values) =
    let rest = pack_parts (packed * 2 ^ 8 + value) (remaining - 1) (next ∷ values) in
    if ltb 255 value then none else rest

-- `parse_numeric_ipv4`
unfoldable pub parse_numeric_ipv4 : Text → Option IpAddress
unfolding numeric_parts pack_parts split
parse_numeric_ipv4 host =
    let parts = split b'.' host in
    if ltb 4 (length parts)
    then none
    else elim (numeric_parts parts) [ none ↦ none | some values ↦ pack_parts 0 4 values ]
