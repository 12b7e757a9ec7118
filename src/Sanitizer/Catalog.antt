-- ===== src/Sanitizer/Catalog.antt =====
-- backend/sanitizer.py: `_read_catalog`, over the decoded lines of `tshark -G fields`.
use pcap_server.Anonymize.Names.{member_text}
use pcap_server.Prelude.{
  Bool, false, ◌||◌, List, [], ◌∷◌, ◌++◌, Option, none, some, if◌then◌else◌, Text, store, bytes_eq,
}
use pcap_server.Framewalk.{Kind, mac, ipv4, ipv6}
use pcap_server.Sanitizer.{no_protocols, Attempt, ok, raised}
use pcap_server.Sanitizer.Texts.{codes}
use pcap_server.Sanitizer.Rules.{Rule, rules, FieldCatalog}

unfoldable pub add_protocol : Text → FieldCatalog → FieldCatalog
add_protocol name c =
    if member_text name c.protocols then c else record c { protocols = c.protocols ++ name ∷ [] }

-- `_ADDRESS_FTYPES.get(ftype)`
unfoldable pub address_kind : Text → Option Kind
address_kind ftype =
    if bytes_eq ftype (codes "FT_IPv4")
    then some ipv4
    else if bytes_eq ftype (codes "FT_IPv6")
    then some ipv6
    else if bytes_eq ftype (codes "FT_ETHER")
    then some mac
    else none

unfoldable pub add_kind : Text → Text → FieldCatalog → FieldCatalog
add_kind name ftype c = elim (address_kind ftype) [
  | none ↦ c
  | some kind ↦ record c { address_kinds = store c.address_kinds name kind }
]

-- The fields that rules name, and those that they look at.
unfoldable pub wanted_by : List Rule → Text → Bool
wanted_by [] x = false
wanted_by (r ∷ rs) x =
    let later = wanted_by rs x in
    bytes_eq x r.field || later || elim r.when [ none ↦ false | some w ↦ bytes_eq x w.0 ]

unfoldable pub is_wanted : Text → Bool
is_wanted x = wanted_by rules x

-- One line of `tshark -G fields`, split at its tabs: the loop's body in `_read_catalog`.
unfoldable pub read_line : List Text → FieldCatalog → FieldCatalog
read_line (tag ∷ shown ∷ name ∷ []) c = if bytes_eq tag (codes "P") then add_protocol name c else c
read_line (tag ∷ shown ∷ name ∷ ftype ∷ more) c =
    if bytes_eq tag (codes "P")
    then add_protocol name c
    else if bytes_eq tag (codes "F")
    then add_kind name ftype
        (if is_wanted name then record c { types = store c.types name ftype } else c)
    else c
read_line parts c = c

-- `parts[0] == "P"` and the rest of the loop. The lines come split at their tabs.
unfoldable pub read_lines : List (List Text) → FieldCatalog → FieldCatalog
read_lines [] c = c
read_lines (parts ∷ rest) c = read_lines rest (read_line parts c)

unfoldable pub has_protocols : FieldCatalog → List Text → Attempt FieldCatalog
has_protocols c [] = raised no_protocols
has_protocols c (proto ∷ rest) = ok c

unfoldable pub read_catalog : List (List Text) → Attempt FieldCatalog
read_catalog lines =
    let c = read_lines lines (record { types = []; address_kinds = []; protocols = [] }) in
    has_protocols c c.protocols
