-- ===== src/Sanitizer/Rules.antt =====
-- backend/sanitizer.py: the options, the rules for fields, and what tshark is asked for.
pub mod Joined
pub mod Plan
pub mod Examples
use Prim.Native.String.{String}
use pcap_server.Anonymize.Names.{member_text}
use pcap_server.Prelude.{
  Bool, false, ◌&&◌, ◌||◌, List, [], ◌∷◌, ◌++◌, Option, none, some, if◌then◌else◌, Text, Dict,
  lookup, store,
}
use pcap_server.Framewalk.{Kind}
use pcap_server.Sanitizer.Texts.{codes, starts_with}

pub record SanitizeOptions : Type 0 where
  pub credentials : Bool
  pub ips : Bool
  pub keep_private : Bool
  pub macs : Bool
  pub keep_oui : Bool
  pub hostnames : Bool
  pub usernames : Bool
  pub strip_payload : Bool

unfoldable pub anything_selected : SanitizeOptions → Bool
anything_selected o =
    o.credentials || o.ips || o.macs || o.hostnames || o.usernames || o.strip_payload

pub data Category : Type 0 where
  credentials usernames hostnames : Category

pub data Style : Type 0 where
  secret auth cookie name host nbns : Style

-- A `_Rule`; `when` restricts it to packets where a field has one of the values.
pub record Rule : Type 0 where
  pub field : Text
  pub category : Category
  pub style : Style
  pub when : Option (Text × List Text)

-- `_Rule(...)`, and `_when(...)`.
abbrev rule : String → Category → Style → Option (Text × List Text) → Rule
rule field category style when = record {
  field = codes field;
  category = category;
  style = style;
  when = when;
}

abbrev on : String → List Text → Option (Text × List Text)
on field values = some (codes field, values)

abbrev credential_rules : List Rule
credential_rules =
    rule "http.authorization" credentials auth none
    ∷ rule "http.proxy_authorization" credentials auth none
    ∷ rule "sip.Authorization" credentials auth none
    ∷ rule "http.cookie_pair" credentials cookie none
    ∷ rule "http.set_cookie" credentials cookie none
    ∷ rule "ftp.request.arg" credentials secret
        (on "ftp.request.command" (codes "PASS" ∷ codes "ACCT" ∷ []))
    ∷ rule "pop.request.parameter" credentials secret
        (on "pop.request.command" (codes "PASS" ∷ codes "APOP" ∷ []))
    ∷ rule "imap.request.password" credentials secret none
    ∷ rule "smtp.auth.password" credentials secret none
    ∷ rule "smtp.auth.username_password" credentials secret none
    ∷ rule "snmp.community" credentials secret none
    ∷ rule "radius.User_Password" credentials secret none
    ∷ rule "ntlmssp.auth.ntresponse" credentials secret none
    ∷ rule "ntlmssp.auth.lmresponse" credentials secret none
    ∷ rule "kerberos.cipher" credentials secret none
    ∷ rule "ldap.simple" credentials secret none
    ∷ rule "mysql.passwd" credentials secret none
    ∷ rule "pgsql.password" credentials secret none
    ∷ rule "tds.login.password" credentials secret none
    ∷ rule "vnc.auth_response" credentials secret none
    ∷ []

abbrev username_rules : List Rule
username_rules =
    rule "ftp.request.arg" usernames name (on "ftp.request.command" (codes "USER" ∷ []))
    ∷ rule "pop.request.parameter" usernames name (on "pop.request.command" (codes "USER" ∷ []))
    ∷ rule "imap.request.username" usernames name none
    ∷ rule "smtp.auth.username" usernames name none
    ∷ rule "radius.User_Name" usernames name none
    ∷ rule "ntlmssp.auth.username" usernames name none
    ∷ rule "ntlmssp.auth.domain" usernames name none
    ∷ rule "kerberos.CNameString" usernames name none
    ∷ rule "ldap.name" usernames name none
    ∷ rule "mysql.user" usernames name none
    ∷ rule "pgsql.parameter_value" usernames name (on "pgsql.parameter_name" (codes "USER" ∷ []))
    ∷ rule "smb2.acct" usernames name none
    ∷ rule "smb2.domain" usernames name none
    ∷ rule "sip.auth.username" usernames name none
    ∷ []

abbrev hostname_rules : List Rule
hostname_rules =
    rule "dns.qry.name" hostnames host none
    ∷ rule "dns.resp.name" hostnames host none
    ∷ rule "dns.cname" hostnames host none
    ∷ rule "dns.ptr.domain_name" hostnames host none
    ∷ rule "dns.ns" hostnames host none
    ∷ rule "dns.soa.mname" hostnames host none
    ∷ rule "dns.soa.rname" hostnames host none
    ∷ rule "dns.srv.target" hostnames host none
    ∷ rule "dns.mx.mail_exchange" hostnames host none
    ∷ rule "tls.handshake.extensions_server_name" hostnames host none
    ∷ rule "http.host" hostnames host none
    ∷ rule "dhcp.option.hostname" hostnames host none
    ∷ rule "dhcp.fqdn.name" hostnames host none
    ∷ rule "dhcp.option.domain_name" hostnames host none
    ∷ rule "smb2.host" hostnames host none
    ∷ rule "ntlmssp.auth.hostname" hostnames host none
    ∷ rule "nbns.name" hostnames nbns none
    ∷ []

unfoldable pub rules : List Rule
rules = credential_rules ++ username_rules ++ hostname_rules

abbrev pub address_protocols : List Text
address_protocols =
    codes "dns"
    ∷ codes "dhcp"
    ∷ codes "dhcpv6"
    ∷ codes "nbns"
    ∷ codes "lldp"
    ∷ codes "cdp"
    ∷ codes "snmp"
    ∷ codes "radius"
    ∷ codes "bgp"
    ∷ codes "ospf"
    ∷ codes "rip"
    ∷ codes "eigrp"
    ∷ codes "vrrp"
    ∷ codes "hsrp"
    ∷ codes "pim"
    ∷ []

-- `_RULES_BY_FIELD.setdefault(rule.field, []).append(rule)`
unfoldable pub add_rule : Dict (List Rule) → Rule → Dict (List Rule)
add_rule table r = elim (lookup table r.field) [
  | none ↦ store table r.field (r ∷ [])
  | some earlier ↦ store table r.field (earlier ++ r ∷ [])
]

unfoldable pub group_rules : Dict (List Rule) → List Rule → Dict (List Rule)
group_rules table [] = table
group_rules table (r ∷ rs) = group_rules (add_rule table r) rs

unfoldable pub rules_by_field : Dict (List Rule)
rules_by_field = group_rules [] rules

-- What `tshark -G fields` says: the types of the rules' fields, the kinds of the address fields
-- and the protocols.
pub record FieldCatalog : Type 0 where
  pub types : Dict Text
  pub address_kinds : Dict Kind
  pub protocols : List Text

unfoldable pub rule_selected : SanitizeOptions → Rule → Bool
rule_selected o r = elim r.category [
  | hostnames ↦ o.hostnames || o.ips && starts_with r.field (codes "dns.")
  | credentials ↦ o.credentials
  | usernames ↦ o.usernames
]

unfoldable pub any_selected : SanitizeOptions → List Rule → Bool
any_selected o [] = false
any_selected o (r ∷ rs) = let later = any_selected o rs in rule_selected o r || later

-- The fields of the display filter, for the entries of `_RULES_BY_FIELD`.
unfoldable pub field_terms : SanitizeOptions → FieldCatalog → Dict (List Rule) → List Text
field_terms o c [] = []
field_terms o c ((field, rs) ∷ rest) =
    let later = field_terms o c rest in
    elim (lookup c.types field) [
      | none ↦ later
      | some kind ↦ if any_selected o rs then field ∷ later else later
    ]

unfoldable pub known_protocols : FieldCatalog → List Text → List Text
known_protocols c [] = []
known_protocols c (proto ∷ rest) =
    let later = known_protocols c rest in
    if member_text proto c.protocols then proto ∷ later else later

unfoldable pub plan_terms : SanitizeOptions → FieldCatalog → List Text
plan_terms o c =
    field_terms o c rules_by_field
    ++ (if o.ips || o.macs then known_protocols c address_protocols else [])
    ++ (if member_text (codes "data") c.protocols then codes "data" ∷ [] else [])

-- `" or ".join(terms)`
unfoldable pub join_or : List Text → Text
join_or [] = []
join_or (t ∷ []) = t
join_or (t ∷ u ∷ rest) = t ++ codes " or " ++ join_or (u ∷ rest)

unfoldable pub filter_of : List Text → Option Text
filter_of [] = none
filter_of (t ∷ rest) = some (join_or (t ∷ rest))

unfoldable pub tshark_plan : SanitizeOptions → FieldCatalog → Option Text
tshark_plan o c = if o.strip_payload then none else filter_of (plan_terms o c)
