-- ===== src/Tests/Proxies.antt =====
-- clientIp.ts behind one proxy, with lists of addresses for lists of subnets.
use keyzori.Prelude.{
  ◌≡◌, ◌⊎◌, refl, String, List, [], ◌∷◌, ◌==◌, true, false, none, some, any, if◌then◌else◌,
}
use keyzori.Domain.Text.{is_empty, trim}
use keyzori.Domain.Host.{Host}
use keyzori.Domain.IpAddress.{normalize_ip_address, split_parts, join_dots, canonical_part}
use keyzori.Domain.Decimal.{read_number, show_decimal}
use keyzori.Controllers.ClientIp.{
  BlockLists, ClientIpResolver, IpRequest, x_forwarded_for, is_trusted, resolve, resolve_by,
  resolve_forwarded_chain, last_hop, socket_address, new_resolver, add_cidrs, add_cidr,
}
use keyzori.Controllers.ClientIp.Forged.{forged_ignored}

abbrev four : Host
four = record {
  parse_date = λ t. none;
  to_lower_case = λ t. t;
  is_ip = λ t. if is_empty t then 0 else 4;
  url_hostname = λ t. none;
}

abbrev addresses : BlockLists
addresses = record {
  BlockList = List String;
  empty = [];
  add_subnet = λ address prefix_text family block_list. some (address ∷ block_list);
  check = λ block_list address family. any (λ known. known == address) block_list;
}

abbrev behind_proxy : ClientIpResolver addresses
behind_proxy = record {
  options = record {
    trust_proxy_headers = true;
    trusted_proxy_cidrs = "10.0.0.1/32" ∷ [];
    trusted_proxy_header = none;
  };
  trusted_proxies = "10.0.0.1" ∷ [];
  header = x_forwarded_for;
  trust_all_proxies = false;
}

built : new_resolver four addresses behind_proxy.options ≡ some behind_proxy
unfolding new_resolver add_cidrs add_cidr split_parts any is_empty
built = refl

abbrev proxied : IpRequest
proxied = record { address = some "10.0.0.1"; cloudflare = none; forwarded = none; real_ip = none }

abbrev with_chain : String → IpRequest
with_chain text = record proxied { forwarded = some text }

client :
    is_trusted four addresses behind_proxy
      (resolve four addresses behind_proxy (with_chain "8.8.8.8"))
    ≡ false
unfolding resolve resolve_by is_trusted resolve_forwarded_chain last_hop normalize_ip_address
    split_parts any is_empty trim join_dots canonical_part read_number show_decimal
client = refl

forged_ignored_example :
    (resolve four addresses behind_proxy (with_chain "1.2.3.4,8.8.8.8")
      ≡ socket_address four addresses behind_proxy proxied)
    ⊎ (resolve four addresses behind_proxy (with_chain "1.2.3.4,8.8.8.8")
        ≡ resolve four addresses behind_proxy (with_chain "8.8.8.8"))
forged_ignored_example =
    forged_ignored four addresses behind_proxy proxied "1.2.3.4" "8.8.8.8" refl client
