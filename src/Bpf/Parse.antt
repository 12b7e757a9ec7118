-- ===== src/Bpf/Parse.antt =====
-- backend/bpf.py: from the tokens of a filter to its port constraints, with _parse_alternative,
-- _collect and _parse_constraints. Digits beyond ASCII are left out.
pub mod Depth
pub mod Terms
pub mod Reads
pub mod Readings
pub mod PortTerms
pub mod Numerals
pub mod Named
pub mod Senses
pub mod Alternatives
pub mod Sound
pub mod Fuel
pub mod Examples
use mathlib.Core.Option
use pcap_server.Prelude.{
  ℕ, zero, suc, ◌+◌, ◌-◌, ◌*◌, Bool, true, false, not, ◌&&◌, ◌||◌, List, [], ◌∷◌, ◌++◌, Option,
  none, some, Text, length, drop, leb, ltb, ◌==◌, bytes_eq, if◌then◌else◌, any_of,
}
use pcap_server.Anonymize.Names.{member_text}
use pcap_server.Sanitizer.Texts.{codes}
use pcap_server.Bpf.Tokens.{
  Tokens, or_words, and_words, tokenize, Groups, split_top_level, strip_parens,
}
use pcap_server.Bpf.{
  Protocol, tcp, udp, sctp, max_candidate_ports, Alternative, Constraint, Verdict,
  structural_verdict,
}

abbrev pub is_ascii_digit : ℕ → Bool
is_ascii_digit c = leb 0x30 c && leb c 0x39

-- The value of some digits, given the value in front of them; `none` for anything else.
unfoldable pub digits_value : ℕ → Text → Option ℕ
digits_value n [] = some n
digits_value n (c ∷ cs) =
    let later = digits_value (n * 10 + (c - 0x30)) cs in if is_ascii_digit c then later else none

-- `isdigit()` and `int`.
unfoldable pub number_of : Text → Option ℕ
number_of [] = none
number_of (c ∷ cs) = digits_value 0 (c ∷ cs)

-- A text up to its first "-", and what follows that.
unfoldable pub split_dash : Text → Option (Text × Text)
split_dash [] = none
split_dash (c ∷ cs) = elim (split_dash cs) [
  | none ↦ if c == 0x2D then some ([], cs) else none
  | some (low, high) ↦ if c == 0x2D then some ([], cs) else some (c ∷ low, high)
]

-- `range(lo, lo + n)`
unfoldable pub ports_from : ℕ → ℕ → List ℕ
ports_from lo zero = []
ports_from lo (suc n) = lo ∷ ports_from (lo + 1) n

unfoldable pub range_ports : ℕ → ℕ → Option (List ℕ)
range_ports lo hi =
    if leb lo hi && leb (hi - lo) max_candidate_ports
    then some (ports_from lo (hi - lo + 1))
    else none

-- The ports that `(\d+)-(\d+)` gives.
unfoldable pub range_of : Text → Option (List ℕ)
range_of value = elim (split_dash value) [
  | none ↦ none
  | some (low, high) ↦ elim (number_of low) [
    | none ↦ none
    | some lo ↦ elim (number_of high) [ none ↦ none | some hi ↦ range_ports lo hi ]
  ]
]

unfoldable pub ports_named : Text → Text → Option (List ℕ)
ports_named keyword value =
    if bytes_eq keyword (codes "port")
    then elim (number_of value) [ none ↦ none | some n ↦ some (n ∷ []) ]
    else if bytes_eq keyword (codes "portrange")
    then range_of value
    else none

-- From the keyword on.
unfoldable pub parse_port : Option Protocol → Bool → Bool → Tokens → Option Alternative
parse_port proto src dst (keyword ∷ value ∷ []) = elim (ports_named keyword value) [
  | none ↦ none
  | some ports ↦ some (record { ports = ports; src = src; dst = dst; proto = proto })
]
parse_port proto src dst ts = none

-- From the direction on.
unfoldable pub parse_slots : Option Protocol → Tokens → Option Alternative
parse_slots proto [] = none
parse_slots proto (t ∷ ts) =
    if bytes_eq t (codes "src")
    then parse_port proto true false ts
    else if bytes_eq t (codes "dst")
    then parse_port proto false true ts
    else parse_port proto true true (t ∷ ts)

unfoldable pub named_protocol : Text → Option Protocol
named_protocol t =
    if bytes_eq t (codes "tcp")
    then some tcp
    else if bytes_eq t (codes "udp")
    then some udp
    else if bytes_eq t (codes "sctp")
    then some sctp
    else none

abbrev pub layer_words : List Text
layer_words =
    codes "ip"
    ∷ codes "ip6"
    ∷ codes "arp"
    ∷ codes "rarp"
    ∷ codes "ether"
    ∷ codes "vlan"
    ∷ codes "mpls"
    ∷ []

-- `_parse_alternative` once the brackets are off.
unfoldable pub parse_term : Tokens → Option Alternative
parse_term [] = none
parse_term (t ∷ ts) = elim (named_protocol t) [
  | some proto ↦ parse_slots (some proto) ts
  | none ↦ if member_text t layer_words then none else parse_slots none (t ∷ ts)
]

unfoldable pub parse_alternative : Tokens → Option Alternative
parse_alternative ts = parse_term (strip_parens ts)

-- `all(a is not None for a in alternatives)`, with the alternatives.
unfoldable pub parse_all : List Tokens → Option (List Alternative)
parse_all [] = some []
parse_all (g ∷ gs) = elim (parse_alternative g) [
  | none ↦ none
  | some a ↦ elim (parse_all gs) [ none ↦ none | some as' ↦ some (a ∷ as') ]
]

unfoldable pub one_constraint : Option (List Alternative) → List Constraint
one_constraint none = []
one_constraint (some alternatives) = record { alternatives = alternatives } ∷ []

unfoldable pub one_term : Option Alternative → List Constraint
one_term none = []
one_term (some a) = record { alternatives = a ∷ [] } ∷ []

-- What is found, where `none` is out of fuel.
abbrev pub Found : Type 0
Found = Option (List Constraint)

unfoldable pub extend_all : (Tokens → Found) → List Tokens → Found
extend_all collect_group [] = some []
extend_all collect_group (g ∷ gs) = elim (collect_group g) [
  | none ↦ none
  | some cs ↦ elim (extend_all collect_group gs) [ none ↦ none | some ds ↦ some (cs ++ ds) ]
]

unfoldable pub tokens_eq : Tokens → Tokens → Bool
tokens_eq [] [] = true
tokens_eq [] (u ∷ us) = false
tokens_eq (t ∷ ts) [] = false
tokens_eq (t ∷ ts) (u ∷ us) = bytes_eq t u && tokens_eq ts us

-- A term with no operator left in it.
unfoldable pub collect_term : (Tokens → Found) → Tokens → Found
collect_term collect_group ts = elim (tokens_eq (strip_parens ts) ts) [
  | false ↦ collect_group (strip_parens ts)
  | true ↦ some (one_term (parse_alternative ts))
]

-- `_collect` of tokens whose brackets are off, given `_collect` for what it calls itself on.
unfoldable pub collect_and : (Tokens → Found) → Tokens → Option Groups → Found
collect_and collect_group ts none = some []
collect_and collect_group ts (some (g, [])) = collect_term collect_group ts
collect_and collect_group ts (some (g, h ∷ hs)) = extend_all collect_group (g ∷ h ∷ hs)

unfoldable pub collect_or : (Tokens → Found) → Tokens → Option Groups → Found
collect_or collect_group ts none = some []
collect_or collect_group ts (some (g, [])) =
    collect_and collect_group ts (split_top_level and_words ts)
collect_or collect_group ts (some (g, h ∷ hs)) = some (one_constraint (parse_all (g ∷ h ∷ hs)))

unfoldable pub collect_stripped : (Tokens → Found) → Tokens → Found
collect_stripped collect_group [] = some []
collect_stripped collect_group (t ∷ ts) =
    collect_or collect_group (t ∷ ts) (split_top_level or_words (t ∷ ts))

-- `_collect`, on fuel for its depth.
unfoldable pub collect : ℕ → Tokens → Found
collect zero ts = none
collect (suc k) ts = collect_stripped (collect k) (strip_parens ts)

unfoldable pub is_negation : Text → Bool
is_negation t = bytes_eq t (codes "not") || bytes_eq t (codes "!")

-- `_parse_constraints` on the tokens, where the outer `none` is out of fuel. None is to stand down.
unfoldable pub parse_tokens : Tokens → Option (Option (List Constraint))
parse_tokens [] = some none
parse_tokens (t ∷ ts) =
    if any_of is_negation (t ∷ ts)
    then some none
    else Option.map some (collect (suc (length (t ∷ ts))) (t ∷ ts))

unfoldable pub parse_constraints : (Text → Text) → Text → Option (Option (List Constraint))
parse_constraints lower expr = parse_tokens (tokenize lower expr)

-- `structural_check`, by the code of its warning. A text of blanks alone has no tokens.
unfoldable pub structural_check : (Text → Text) → Text → Option Verdict
structural_check lower expr = Option.map structural_verdict (parse_constraints lower expr)
