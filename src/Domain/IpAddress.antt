-- ===== src/Domain/IpAddress.antt =====
-- apps/server/src/domain/ipAddress.ts: the one spelling of an IP address.
use Prim.Native.Char.{Char, code}
use keyzori.Prelude.{
  ℕ, zero, suc, ◌+◌, ◌-◌, ◌*◌, ◌/◌, ◌%◌, String, List, [], ◌∷◌, ◌&&◌, leb, eqb, Option, none, some,
  if◌then◌else◌, map,
}
use keyzori.Domain.Text.{trim, concat}
use keyzori.Domain.Decimal.{show_decimal, read_number}
use keyzori.Domain.Host.{Host}

-- `text.split(separator)`, the first part before the others.
unfoldable pub split_parts : ℕ → String → String × List String
split_parts separator String.[] = ("", [])
split_parts separator (String.◌∷◌ c s) =
    let (part, parts) = split_parts separator s in
    if eqb (code c) separator then ("", part ∷ parts) else (String.◌∷◌ c part, parts)

-- `parts.join(".")`.
unfoldable pub join_dots : String → List String → String
join_dots part [] = part
join_dots part (next ∷ parts) = concat part (concat "." (join_dots next parts))

-- `String(Number(part))` on a part of an IPv4 address.
unfoldable pub canonical_part : String → String
canonical_part part = elim (read_number part) [ none ↦ "NaN" | some n ↦ show_decimal n ]

-- The digit's value, of `[0-9a-f]`.
unfoldable pub hex_digit : Char → Option ℕ
hex_digit c =
    let n = code c in
    if leb b'0' n && leb n b'9'
    then some (n - b'0')
    else if leb b'a' n && leb n b'f'
    then some (n - b'a' + 10)
    else none

-- `[0-9a-f]{0,fuel}` after the digits read so far.
unfoldable pub read_hex : ℕ → ℕ → String → Option ℕ
read_hex fuel n String.[] = some n
read_hex zero n (String.◌∷◌ c s) = none
read_hex (suc fuel) n (String.◌∷◌ c s) = elim (hex_digit c) [
  | none ↦ none
  | some d ↦ read_hex fuel (n * 16 + d) s
]

-- `([0-9a-f]{1,4})`, as `parseInt` reads it.
unfoldable pub hex_group : String → Option ℕ
hex_group String.[] = none
hex_group (String.◌∷◌ c s) = read_hex 4 0 (String.◌∷◌ c s)

-- The rest of the text after the prefix.
unfoldable pub after_prefix : String → String → Option String
after_prefix String.[] s = some s
after_prefix (String.◌∷◌ p ps) String.[] = none
after_prefix (String.◌∷◌ p ps) (String.◌∷◌ c s) =
    let rest = after_prefix ps s in if eqb (code p) (code c) then rest else none

-- `::ffff:${high >>> 8}.${high & 255}.${low >>> 8}.${low & 255}`
unfoldable pub mapped_text : ℕ → ℕ → String
mapped_text high low = concat "::ffff:" (
    join_dots (show_decimal (high / 256))
      (show_decimal (high % 256) ∷ show_decimal (low / 256) ∷ show_decimal (low % 256) ∷ []))

abbrev pub both : Option ℕ → Option ℕ → Option (ℕ × ℕ)
both (some a) (some b) = some (a, b)
both _ _ = none

-- The two groups of `^::ffff:([0-9a-f]{1,4}):([0-9a-f]{1,4})$`.
unfoldable pub mapped_groups : String → Option (ℕ × ℕ)
mapped_groups normalized = elim (after_prefix "::ffff:" normalized) [
  | none ↦ none
  | some rest ↦
      let (high, lows) = split_parts b':' rest in
      elim lows [ low ∷ [] ↦ both (hex_group high) (hex_group low) | _ ↦ none ]
]

-- `text.slice(1, -1)`, on a text in brackets.
unfoldable pub without_last : String → String
without_last String.[] = ""
without_last (String.◌∷◌ c String.[]) = ""
without_last (String.◌∷◌ c (String.◌∷◌ d s)) = String.◌∷◌ c (without_last (String.◌∷◌ d s))

unfoldable pub inner_text : String → String
inner_text String.[] = ""
inner_text (String.◌∷◌ c s) = without_last s

-- `normalizeIpAddress`.
unfoldable pub normalize_ip_address : Host → String → Option String
normalize_ip_address host value =
    let address = trim value in
    if eqb (host.is_ip address) 4
    then (let (part, parts) = split_parts b'.' address in
        some (join_dots (canonical_part part) (map canonical_part parts)))
    else if eqb (host.is_ip address) 6
    then elim (host.url_hostname address) [
      | none ↦ none
      | some hostname ↦
          let normalized = host.to_lower_case (inner_text hostname) in
          elim (mapped_groups normalized) [
            | none ↦ some normalized
            | some (high, low) ↦ some (mapped_text high low)
          ]
    ]
    else none
