-- ===== src/Sanitizer/Conditions.antt =====
-- backend/sanitizer.py: what the rewriter reads of a packet, and which rules apply to a field.
use pcap_server.Prelude.{
  Bool, true, false, not, ◌&&◌, ◌||◌, List, [], ◌∷◌, ◌++◌, Option, none, some, Bytes, ◌==◌,
  bytes_eq, if◌then◌else◌, Text, lookup,
}
use pcap_server.Anonymize.Names.{member_text}
use pcap_server.Framewalk.{Kind}
use pcap_server.Sanitizer.Texts.{codes, PythonTexts, ends_with, hex, meets}
use pcap_server.Sanitizer.Rules.{
  SanitizeOptions, credentials, usernames, hostnames, Rule, rules_by_field, FieldCatalog,
  rule_selected,
}
use pcap_server.Sanitizer.Fields.{
  Json, array, item, Members, no_members, member_of, get, members_of, text_of, Found, raw_suffix,
  collect_fields,
}
use pcap_server.Sanitizer.Summary.{
  Masked, masked_credentials, masked_usernames, masked_hostnames, reverse_dns_names,
}

-- The rules of a field: `_RULES_BY_FIELD.get(name, ())`.
unfoldable pub rules_for : Text → List Rule
rules_for field = elim (lookup rules_by_field field) [ none ↦ [] | some rs ↦ rs ]

-- `seen.get(name, set())`: the values of a field, in upper case.
unfoldable pub seen_values : PythonTexts → Text → List Found → List Text
seen_values py field [] = []
seen_values py field ((other, value, raw) ∷ rest) =
    let later = seen_values py field rest in
    elim (text_of value) [
      | none ↦ later
      | some shown ↦ if bytes_eq field other then py.upper shown ∷ later else later
    ]

-- `rule.when and not (seen.get(rule.when[0], set()) & rule.when[1])`, negated.
unfoldable pub applies : PythonTexts → List Found → Option (Text × List Text) → Bool
applies py fields none = true
applies py fields (some w) = meets (seen_values py w.0 fields) w.1

abbrev reverse_dns_suffixes : List Text
reverse_dns_suffixes = codes ".in-addr.arpa" ∷ codes ".ip6.arpa" ∷ []

unfoldable pub is_reverse_dns : PythonTexts → Option Text → Bool
is_reverse_dns py none = false
is_reverse_dns py (some shown) =
    ends_with (py.lower shown) (codes ".in-addr.arpa")
    || ends_with (py.lower shown) (codes ".ip6.arpa")

-- The category that a rule's field counts under; `none` for the early returns.
unfoldable pub category_for : PythonTexts → SanitizeOptions → Rule → Json → Option Masked
category_for py o r value = elim r.category [
  | hostnames ↦
      if not o.hostnames
      then (if not (o.ips && is_reverse_dns py (text_of value))
          then none
          else some reverse_dns_names)
      else some masked_hostnames
  | credentials ↦ if not (rule_selected o r) then none else some masked_credentials
  | usernames ↦ if not (rule_selected o r) then none else some masked_usernames
]

-- `self.catalog is not None and self.catalog.types.get(name) in _BINARY_FTYPES`
unfoldable pub is_binary : Option FieldCatalog → Text → Bool
is_binary none field = false
is_binary (some c) field = elim (lookup c.types field) [
  | none ↦ false
  | some kind ↦ member_text kind (codes "FT_BYTES" ∷ codes "FT_UINT_BYTES" ∷ [])
]

unfoldable pub kind_for : Option FieldCatalog → Text → Option Kind
kind_for none field = none
kind_for (some c) field = lookup c.address_kinds field

abbrev walked_layers : List Text
walked_layers =
    codes "frame"
    ∷ codes "eth"
    ∷ codes "sll"
    ∷ codes "vlan"
    ∷ codes "ip"
    ∷ codes "ipv6"
    ∷ codes "tcp"
    ∷ codes "udp"
    ∷ []

-- The fields of the layers that the frame walker has not covered.
unfoldable pub layer_fields : Members → List Found
layer_fields no_members = []
layer_fields (member_of layer node rest) =
    let later = layer_fields rest in
    if not (member_text layer walked_layers) && not (ends_with layer raw_suffix)
    then collect_fields node ++ later
    else later

-- `str(frame_raw[0]).lower() == frame.hex()`, where the list's first value is a str.
unfoldable pub agrees_with : PythonTexts → Json → Bytes → Bool
agrees_with py (array (item first rest)) frame = elim (text_of first) [
  | none ↦ false
  | some digits ↦ bytes_eq (py.lower digits) (hex frame)
]
agrees_with py other frame = false

-- `"data" in str(protocols).split(":")`
unfoldable pub split_colons : Text → List Text
split_colons [] = [] ∷ []
split_colons (c ∷ cs) = elim (split_colons cs) [
  | [] ↦ []
  | part ∷ parts ↦ if c == 0x3A then [] ∷ part ∷ parts else (c ∷ part) ∷ parts
]

unfoldable pub has_data : Json → Bool
has_data protocols = elim (text_of protocols) [
  | none ↦ false
  | some shown ↦ member_text (codes "data") (split_colons shown)
]

-- The layers of a packet, and the fields that the loop of `_apply_packet` goes over.
unfoldable pub packet_layers : Json → Members
packet_layers packet =
    members_of (get (members_of (get (members_of packet) (codes "_source"))) (codes "layers"))

unfoldable pub packet_fields : Json → List Found
packet_fields packet = layer_fields (packet_layers packet)
