-- ===== src/Sanitizer/Rules/Examples.antt =====
-- The theorems of the rules and of the masks at concrete values.
use pcap_server.Prelude.{
  bytes_eq, ◌≡◌, refl, true, false, [], ◌∷◌, none, some, Text, Bytes, length, here,
}
use pcap_server.Sanitizer.Texts.{codes}
use pcap_server.Sanitizer.Fields.{string}
use pcap_server.Sanitizer.Masks.{mask_secret, mask_auth, mask_cookie}
use pcap_server.Sanitizer.Masks.Credentials.{masks_keep_length}
use pcap_server.Sanitizer.Rules.{
  SanitizeOptions, Category, Style, Rule, rules, FieldCatalog, rule_selected, tshark_plan,
}
use pcap_server.Sanitizer.Rules.Joined.{IsTerm}
use pcap_server.Sanitizer.Rules.Plan.{Among, rules-tshark_plan}
use pcap_server.Sanitizer.Conditions.{rules_for}

abbrev credentials_alone : SanitizeOptions
credentials_alone = record {
  credentials = true;
  ips = false;
  keep_private = false;
  macs = false;
  keep_oui = false;
  hostnames = false;
  usernames = false;
  strip_payload = false;
}

-- A tshark that knows one field.
abbrev small_catalog : FieldCatalog
small_catalog = record {
  types = (codes "http.authorization", codes "FT_STRING") ∷ [];
  address_kinds = [];
  protocols = codes "http" ∷ [];
}

abbrev authorization : Rule
authorization = record {
  field = codes "http.authorization";
  category = Category.credentials;
  style = Style.auth;
  when = none;
}

authorization-rules : Among authorization rules
unfolding rules
authorization-rules = here refl

rules-tshark_plan_example :
    Among authorization (rules_for authorization.field)
    × (text : Text) × (tshark_plan credentials_alone small_catalog ≡ some text)
    × IsTerm authorization.field text
unfolding rule_selected bytes_eq
rules-tshark_plan_example =
    rules-tshark_plan credentials_alone small_catalog authorization (codes "FT_STRING")
      authorization-rules refl refl refl

abbrev cookie_line : Bytes
cookie_line = codes "Cookie: sid=abc; theme=1"

masks_keep_length_example :
    (length (mask_secret cookie_line (string (codes "sid=abc; theme=1")) false)
      ≡ length cookie_line)
    × (length (mask_auth cookie_line (string (codes "sid=abc; theme=1"))) ≡ length cookie_line)
    × (length (mask_cookie cookie_line (string (codes "sid=abc; theme=1"))) ≡ length cookie_line)
masks_keep_length_example = masks_keep_length cookie_line (string (codes "sid=abc; theme=1")) false
