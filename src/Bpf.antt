-- ===== src/Bpf.antt =====
-- backend/bpf.py: the port constraints of a capture filter, and what structural_check concludes.
-- The children Tokens and Parse have the way from the filter's text to them. The texts of the warnings and
-- tcpdump's own check are not here.
pub mod Search
pub mod Found
pub mod Warnings
pub mod Tokens
pub mod Parse
pub mod Examples
use pcap_server.Prelude.{
  ℕ, ◌≡◌, Bool, true, false, not, ◌&&◌, ◌||◌, List, [], ◌∷◌, Option, none, some, length, member,
  map, ltb, ◌==◌, if◌then◌else◌, all_of, any_of,
}

-- _PROTOCOLS
pub data Protocol : Type 0 where
  tcp udp sctp : Protocol

abbrev pub protocols : List Protocol
protocols = tcp ∷ udp ∷ sctp ∷ []

abbrev pub max_candidate_ports : ℕ
max_candidate_ports = 64

-- `_Alternative`. A set of ports is a list in ascending order; the set `slots` is two flags.
pub record Alternative : Type 0 where
  pub ports : List ℕ
  pub src : Bool
  pub dst : Bool
  pub proto : Option Protocol

-- `_Constraint`, without `source`, which only the texts of the warnings use.
pub record Constraint : Type 0 where
  pub alternatives : List Alternative

-- Adding a port to a set.
unfoldable pub insert_port : ℕ → List ℕ → List ℕ
insert_port x [] = x ∷ []
insert_port x (y ∷ ys) =
    let rest = insert_port x ys in
    if ltb x y then x ∷ y ∷ ys else if x == y then y ∷ ys else y ∷ rest

-- `ports | more`
unfoldable pub union : List ℕ → List ℕ → List ℕ
union [] more = more
union (x ∷ xs) more = insert_port x (union xs more)

-- `_Constraint.ports`
unfoldable pub ports_of : List Alternative → List ℕ
ports_of [] = []
ports_of (a ∷ rest) = union a.ports (ports_of rest)

unfoldable pub constraint_ports : Constraint → List ℕ
constraint_ports c = ports_of c.alternatives

unfoldable pub candidate_ports : List Constraint → List ℕ
candidate_ports [] = []
candidate_ports (c ∷ cs) = union (constraint_ports c) (candidate_ports cs)

abbrev pub same_protocol : Protocol → Protocol → Bool
same_protocol tcp tcp = true
same_protocol udp udp = true
same_protocol sctp sctp = true
same_protocol _ _ = false

-- `alt.proto is not None and alt.proto != proto` skips the alternative.
unfoldable pub rides_on : Option Protocol → Protocol → Bool
rides_on none proto = true
rides_on (some named) proto = same_protocol named proto

-- `value is not None and value in ports`
unfoldable pub port_in : Option ℕ → List ℕ → Bool
port_in none ports = false
port_in (some value) ports = member value ports

-- One round of `_holds`.
unfoldable pub alternative_holds : Protocol → Option ℕ → Option ℕ → Alternative → Bool
alternative_holds proto src dst alt =
    if not (rides_on alt.proto proto)
    then false
    else alt.src && port_in src alt.ports || alt.dst && port_in dst alt.ports

unfoldable pub holds : Protocol → Option ℕ → Option ℕ → Constraint → Bool
holds proto src dst c = any_of (alternative_holds proto src dst) c.alternatives

-- The three nested loops of `_satisfiable`, over the values of a port field.
unfoldable pub search_packets : List Constraint → List (Option ℕ) → Bool
search_packets cs values =
    any_of (λ proto. any_of (λ src. any_of (λ dst. all_of (holds proto src dst) cs) values) values)
      protocols

unfoldable pub satisfiable : List Constraint → Bool
satisfiable [] = true
satisfiable (c ∷ cs) =
    let candidates = candidate_ports (c ∷ cs) in
    if ltb max_candidate_ports (length candidates)
    then true
    else search_packets (c ∷ cs) (none ∷ map some candidates)

-- `not a & b`
unfoldable pub disjoint : List ℕ → List ℕ → Bool
disjoint a b = not (any_of (λ x. member x b) a)

unfoldable pub pairwise_disjoint : List (List ℕ) → Bool
pairwise_disjoint [] = true
pairwise_disjoint (a ∷ rest) = all_of (disjoint a) rest && pairwise_disjoint rest

-- `[c.ports() for c in constraints if c.ports()]`
abbrev pub keep_named : List ℕ → List (List ℕ) → List (List ℕ)
keep_named [] sets = sets
keep_named (p ∷ ps) sets = (p ∷ ps) ∷ sets

unfoldable pub port_sets : List Constraint → List (List ℕ)
port_sets [] = []
port_sets (c ∷ cs) = keep_named (constraint_ports c) (port_sets cs)

-- The warnings by their code.
pub data Verdict : Type 0 where
  quiet bpf_matches_nothing bpf_cross_service_only : Verdict

-- `structural_check` on what `_parse_constraints` returned, None included.
unfoldable pub structural_verdict : Option (List Constraint) → Verdict
structural_verdict none = quiet
structural_verdict (some cs) =
    if ltb (length cs) 2
    then quiet
    else if not (satisfiable cs)
    then bpf_matches_nothing
    else if not (ltb (length (port_sets cs)) 2) && pairwise_disjoint (port_sets cs)
    then bpf_cross_service_only
    else quiet
