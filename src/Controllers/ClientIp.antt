-- ===== src/Controllers/ClientIp.antt =====
-- apps/server/src/controllers/clientIp.ts: the address that a request counts as coming from.
pub mod Forged
use keyzori.Prelude.{
  ℕ, String, List, [], ◌∷◌, Bool, true, false, not, ◌&&◌, ◌||◌, ◌==◌, ltb, eqb, any, length, Option,
  none, some, or_else, is_some, if◌then◌else◌, ◌++◌,
}
use keyzori.Domain.Text.{is_empty}
use keyzori.Domain.Host.{Host}
use keyzori.Domain.IpAddress.{normalize_ip_address, split_parts}

pub data TrustedProxyHeader : Type 0 where
  x_forwarded_for cf_connecting_ip x_real_ip every_header : TrustedProxyHeader

pub record ClientIpOptions : Type 0 where
  pub trust_proxy_headers : Bool
  pub trusted_proxy_cidrs : List String
  pub trusted_proxy_header : Option TrustedProxyHeader

-- What is read of a request: the socket's address and three headers.
pub record IpRequest : Type 0 where
  pub address : Option String
  pub cloudflare : Option String
  pub forwarded : Option String
  pub real_ip : Option String

-- BlockList of node:net. A subnet is added with the number that a text reads as, and an address is
-- given with its family; `none` is an error thrown.
pub record BlockLists : Type 1 where
  pub BlockList : Type 0
  pub empty : BlockList
  pub add_subnet : String → String → ℕ → BlockList → Option BlockList
  pub check : BlockList → String → ℕ → Bool

-- FALLBACK_IP and MAX_FORWARDED_CHAIN_LENGTH.
abbrev pub fallback_ip : String
fallback_ip = "127.0.0.1"

abbrev pub max_forwarded_chain_length : ℕ
max_forwarded_chain_length = 32

-- `forwarded.split(",")`
abbrev pub forwarded_chain : String → List String
forwarded_chain text = let (part, parts) = split_parts b',' text in part ∷ parts

module _ (net : BlockLists) where
  -- The fields of a ClientIpResolver.
  pub record ClientIpResolver : Type 0 where
    pub options : ClientIpOptions
    pub trusted_proxies : net.BlockList
    pub header : TrustedProxyHeader
    pub trust_all_proxies : Bool

module _ (host : Host) (net : BlockLists) where
  -- The step of the constructor's loop for one subnet.
  unfoldable pub add_cidr : String → net.BlockList → Option net.BlockList
  add_cidr cidr proxies =
      let (address, parts) = split_parts b'/' cidr in
      elim parts [
        | [] ↦ some proxies
        | prefix_text ∷ others ↦
            let family = if is_empty address then 0 else host.is_ip address in
            if cidr == "*" || is_empty address || is_empty prefix_text || eqb family 0
            then some proxies
            else net.add_subnet address prefix_text family proxies
      ]

  unfoldable pub add_cidrs : List String → net.BlockList → Option net.BlockList
  add_cidrs [] proxies = some proxies
  add_cidrs (cidr ∷ cidrs) proxies = elim (add_cidr cidr proxies) [
    | none ↦ none
    | some added ↦ add_cidrs cidrs added
  ]

  -- The constructor.
  unfoldable pub new_resolver : ClientIpOptions → Option (ClientIpResolver net)
  new_resolver options = elim (add_cidrs options.trusted_proxy_cidrs net.empty) [
    | none ↦ none
    | some proxies ↦ some (record {
      options = options;
      trusted_proxies = proxies;
      header = or_else options.trusted_proxy_header x_forwarded_for;
      trust_all_proxies = any (λ cidr. cidr == "*") options.trusted_proxy_cidrs;
    })
  ]

  module _ (resolver : ClientIpResolver net) where
    -- `isTrusted`.
    unfoldable pub is_trusted : String → Bool
    is_trusted address =
        let family = host.is_ip address in
        ltb 0 family
        && (resolver.trust_all_proxies || net.check resolver.trusted_proxies address family)

    abbrev pub normalized : String → Option String
    normalized text = normalize_ip_address host text

    -- The loop from the chain's end, which stops at the first address that is not trusted.
    unfoldable pub last_hop : String → List String → String
    last_hop socket_ip [] = socket_ip
    last_hop socket_ip (entry ∷ chain) =
        let current = last_hop socket_ip chain in
        if not (is_trusted current) then current else or_else (normalized entry) socket_ip

    abbrev pub is_malformed : List String → Bool
    is_malformed chain =
        ltb max_forwarded_chain_length (length chain)
        || any (λ entry. not (is_some (normalized entry))) chain

    -- `resolveForwardedChain`.
    unfoldable pub resolve_forwarded_chain : Option String → String → String
    resolve_forwarded_chain none socket_ip = socket_ip
    resolve_forwarded_chain (some forwarded) socket_ip =
        let chain = forwarded_chain forwarded in
        if is_empty forwarded || is_malformed chain then socket_ip else last_hop socket_ip chain

    -- The headers that are given, normalized; `none` if one is no address.
    unfoldable pub normalized_headers : List (Option String) → Option (List String)
    normalized_headers [] = some []
    normalized_headers (none ∷ values) = normalized_headers values
    normalized_headers (some value ∷ values) =
        let rest = normalized_headers values in
        elim (normalized value) [
          | none ↦ none
          | some address ↦
              if is_empty address
              then none
              else elim rest [ none ↦ none | some addresses ↦ some (address ∷ addresses) ]
        ]

    -- `resolved[0]`, where all are one.
    abbrev pub agreed : List String → String → String
    agreed [] socket_ip = socket_ip
    agreed (address ∷ others) socket_ip =
        if any (λ other. not (other == address)) others then socket_ip else address

    -- The branch of `resolve` for every header.
    unfoldable pub resolve_every : IpRequest → String → String
    resolve_every request socket_ip =
        elim (normalized_headers (request.cloudflare ∷ request.real_ip ∷ [])) [
          | none ↦ socket_ip
          | some addresses ↦ elim request.forwarded [
            | none ↦ agreed addresses socket_ip
            | some text ↦
                agreed (addresses ++ (resolve_forwarded_chain (some text) socket_ip ∷ [])) socket_ip
          ]
        ]

    abbrev pub socket_address : IpRequest → String
    socket_address request = or_else (normalized (or_else request.address fallback_ip)) fallback_ip

    unfoldable pub resolve_by : TrustedProxyHeader → IpRequest → String → String
    resolve_by every_header request socket_ip = resolve_every request socket_ip
    resolve_by cf_connecting_ip request socket_ip =
        or_else (normalized (or_else request.cloudflare "")) socket_ip
    resolve_by x_real_ip request socket_ip =
        or_else (normalized (or_else request.real_ip "")) socket_ip
    resolve_by x_forwarded_for request socket_ip =
        resolve_forwarded_chain request.forwarded socket_ip

    -- `resolve`.
    unfoldable pub resolve : IpRequest → String
    resolve request =
        let socket_ip = socket_address request in
        if not resolver.options.trust_proxy_headers || not (is_trusted socket_ip)
        then socket_ip
        else resolve_by resolver.header request socket_ip
