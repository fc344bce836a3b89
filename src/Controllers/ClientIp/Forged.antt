-- ===== src/Controllers/ClientIp/Forged.antt =====
-- What a client cannot make clientIp.ts believe.
use keyzori.Prelude.{
  String, List, [], ◌∷◌, Bool, false, not, ◌||◌, ◌≡◌, refl, ap, sym, ◌∙◌, arith, ◌++◌, any,
  length-append, is_some, Bool-cases, inl, inr, ◌⊎◌, some,
}
use keyzori.Domain.Text.{is_empty, concat}
use keyzori.Domain.Host.{Host}
use keyzori.Domain.IpAddress.{normalize_ip_address, split_parts}
use keyzori.Controllers.ClientIp.{
  BlockLists, ClientIpResolver, IpRequest, x_forwarded_for, forwarded_chain, last_hop, is_trusted,
  is_malformed, resolve_forwarded_chain, resolve_by, resolve, socket_address,
}

-- What stands left of a comma is split apart from what stands right of it.
forwarded_chain-concat :
    (a b : String)
    → forwarded_chain (concat a (concat "," b)) ≡ forwarded_chain a ++ forwarded_chain b
unfolding split_parts
forwarded_chain-concat String.[] b = refl
forwarded_chain-concat (String.◌∷◌ c a) b = ground (arith, forwarded_chain-concat a b)

or-right : (a b : Bool) → (a || b) ≡ false → b ≡ false
or-right a b h = ground arith

any-append : (p : String → Bool) (xs ys : List String) → any p (xs ++ ys) ≡ (any p xs || any p ys)
unfolding any
any-append p [] ys = refl
any-append p (x ∷ xs) ys = ground (arith, any-append p xs ys)

module _ (host : Host) (net : BlockLists) (r : ClientIpResolver net) where
  last_hop-untrusted :
      (socket_ip : String) (chain : List String)
      → is_trusted host net r socket_ip ≡ false
      → last_hop host net r socket_ip chain ≡ socket_ip
  unfolding last_hop
  last_hop-untrusted socket_ip [] h = refl
  last_hop-untrusted socket_ip (entry ∷ chain) h =
      ground (arith, last_hop-untrusted socket_ip chain h)

  -- The loop does not go beyond an address that is not trusted.
  last_hop-append :
      (socket_ip : String) (xs ys : List String)
      → is_trusted host net r (last_hop host net r socket_ip ys) ≡ false
      → last_hop host net r socket_ip (xs ++ ys) ≡ last_hop host net r socket_ip ys
  unfolding last_hop
  last_hop-append socket_ip [] ys h = refl
  last_hop-append socket_ip (x ∷ xs) ys h = ground (arith, last_hop-append socket_ip xs ys h)

  malformed-right :
      (xs ys : List String)
      → is_malformed host net r (xs ++ ys) ≡ false
      → is_malformed host net r ys ≡ false
  malformed-right xs ys h = ground (
    arith,
    length-append xs ys,
    any-append (λ entry. not (is_some (normalize_ip_address host entry))) xs ys,
  )

  abbrev chain_of : String → String → String
  chain_of text socket_ip = resolve_forwarded_chain host net r (some text) socket_ip

  chain-forged :
      (socket_ip forged seen : String)
      → is_trusted host net r (chain_of seen socket_ip) ≡ false
      → (chain_of (concat forged (concat "," seen)) socket_ip ≡ socket_ip)
        ⊎ (chain_of (concat forged (concat "," seen)) socket_ip ≡ chain_of seen socket_ip)
  unfolding resolve_forwarded_chain
  chain-forged socket_ip forged seen h =
      let whole = concat forged (concat "," seen) in
      let chain = forwarded_chain whole in
      let apart = forwarded_chain-concat forged seen in
      elim (Bool-cases (is_empty whole || is_malformed host net r chain)) [
        | inl bad ↦ inl (rw (resolve_forwarded_chain, bad) refl)
        | inr good ↦ elim (Bool-cases (is_empty seen)) [
          | inl empty ↦
              let same =
                last_hop-untrusted socket_ip chain (rw (resolve_forwarded_chain, empty) at h) in
              inl (rw (resolve_forwarded_chain, good) same)
          | inr full ↦
              let fit = or-right (is_empty whole) (is_malformed host net r chain) good in
              let sound =
                malformed-right (forwarded_chain forged) (forwarded_chain seen)
                  (sym (ap (is_malformed host net r) apart) ∙ fit) in
              let same =
                last_hop-append socket_ip (forwarded_chain forged) (forwarded_chain seen)
                  (rw (resolve_forwarded_chain, full, sound) at h) in
              inr (rw (resolve_forwarded_chain, good, full, sound, apart) same)
        ]
      ]

  -- Under the header x-forwarded-for, let a request with the text `seen` in it resolve to an address that
  -- is not a trusted proxy. Whatever a client writes before that text, the request resolves to the same
  -- address, or to that of the socket.
  pub forged_ignored :
      (request : IpRequest) (forged seen : String)
      → r.header ≡ x_forwarded_for
      → is_trusted host net r (resolve host net r (record request { forwarded = some seen }))
        ≡ false
      → (resolve host net r (record request { forwarded = some (concat forged (concat "," seen)) })
          ≡ socket_address host net r request)
        ⊎ (resolve host net r
              (record request { forwarded = some (concat forged (concat "," seen)) })
            ≡ resolve host net r (record request { forwarded = some seen }))
  unfolding resolve resolve_by is_trusted
  forged_ignored request forged seen by h =
      let socket_ip = socket_address host net r request in
      elim (Bool-cases
        (not r.options.trust_proxy_headers || not (is_trusted host net r socket_ip))) [
          | inl direct ↦ inl (rw (resolve, direct) refl)
          | inr behind ↦
              let end =
                chain-forged socket_ip forged seen (rw (resolve, behind, by, resolve_by) at h) in
              rw (resolve, behind, by, resolve_by) end
        ]
