-- ===== src/Bpf/Parse/Examples.antt =====
-- Filters of the module's own notes, from their texts.
use pcap_server.Prelude.{
  ℕ, ◌≡◌, refl, sym, ap, ◌∙◌, true, List, [], ◌∷◌, ◌++◌, ◌⊎◌, Bool, false, Option, none, some, Text,
  inl, inr, arith, All, bytes_eq,
}
use mathlib.Core.Option.{some-injective}
use pcap_server.Sanitizer.Texts.{codes}
use pcap_server.Bpf.{
  Alternative, Constraint, Protocol, tcp, udp, sctp, bpf_matches_nothing, search_packets,
  candidate_ports, constraint_ports, ports_of, union, insert_port, holds, alternative_holds,
  rides_on, port_in, satisfiable, structural_verdict,
}
use pcap_server.Bpf.Search.{Packet, Meets}
use pcap_server.Bpf.Tokens.{
  Tokens, put_word, find_tokens, tokenize, is_space, next_depth, falls, is_bracket, splits,
  add_token, split_from, split_top_level, balanced, drop_last, ends_closing, is_wrapped, inner,
  strip_rounds, strip_parens,
}
use pcap_server.Bpf.Parse.{
  digits_value, number_of, ports_named, parse_port, parse_slots, named_protocol, parse_term,
  parse_alternative, parse_all, one_constraint, one_term, extend_all, collect_term, collect_and,
  collect_or, collect_stripped, collect, tokens_eq, is_negation, parse_tokens, parse_constraints,
  structural_check,
}
use pcap_server.Bpf.Parse.Reads.{Reads, term, parens, both}
use pcap_server.Bpf.Parse.Depth.{top}
use pcap_server.Bpf.Parse.PortTerms.{
  PortWords, one_port, port_range, Direction, source, destination, either_end, protocol_words,
  direction_words, Through, Means,
}
use pcap_server.Bpf.Parse.Numerals.{number_of-IsNumeral}
use pcap_server.Bpf.Parse.Sound.{structural_check-Reads, Meets-parse_tokens}
use pcap_server.Bpf.Parse.Fuel.{collect_total}

-- Terms other than port terms, met by every packet.
abbrev AnyPacket : Packet → Tokens → Type 0
AnyPacket p ts = Unit

abbrev starts_port : Tokens → Bool
starts_port [] = false
starts_port (t ∷ ts) = bytes_eq t (codes "port")

abbrev second : Tokens → Text
second [] = []
second (t ∷ []) = []
second (t ∷ u ∷ ts) = u

-- A packet with the port at one end satisfies the one term that `port` and a number write.
Satisfies-port :
    (p : Packet) (u : Text) (n : ℕ)
    → number_of u ≡ some n
    → (p.sport ≡ n) ⊎ (p.dport ≡ n)
    → (proto : Option Protocol) (d : Direction) (low high : ℕ) (vs : Tokens)
    → codes "port" ∷ u ∷ [] ≡ protocol_words proto ++ (direction_words d ++ vs)
    → PortWords vs low high
    → ((proto ≡ none) ⊎ (proto ≡ some p.proto)) × Through p d low high
unfolding bytes_eq
Satisfies-port p u n h at (some tcp) d low high vs e w = absurd (cc (ap starts_port e))
Satisfies-port p u n h at (some udp) d low high vs e w = absurd (cc (ap starts_port e))
Satisfies-port p u n h at (some sctp) d low high vs e w = absurd (cc (ap starts_port e))
Satisfies-port p u n h at none source low high vs e w = absurd (cc (ap starts_port e))
Satisfies-port p u n h at none destination low high vs e w = absurd (cc (ap starts_port e))
Satisfies-port p u n h at none either_end _ _ _ e (one_port v m i) =
    let same : n ≡ m =
      some-injective _ _ (sym h ∙ ap (λ ts. number_of (second ts)) e ∙ number_of-IsNumeral v m i) in
    (
      inl refl,
      elim at [
        | inl source_is ↦ inl (omega (arith, source_is, same), omega (arith, source_is, same))
        | inr dest_is ↦ inr (omega (arith, dest_is, same), omega (arith, dest_is, same))
      ],
    )
Satisfies-port p u n h at none either_end _ _ _ e (port_range v w low high i k o) =
    absurd (cc (ap starts_port e))

Means-port :
    (p : Packet) (u : Text) (n : ℕ)
    → number_of u ≡ some n
    → (p.sport ≡ n) ⊎ (p.dport ≡ n)
    → Means AnyPacket p (codes "port" ∷ u ∷ [])
Means-port p u n h at = (
  λ f writes. Satisfies-port p u n h at f.proto f.direction f.low f.high writes.0 writes.1 writes.2,
  λ other. tt,
)

abbrev unchanged : Text → Text
unchanged t = t

abbrev kerberos : Packet
kerberos = record { proto = tcp; sport = 88; dport = 464 }

-- Three services, as the filter library brackets them.
abbrev three_services : Text
three_services = codes "((port 88) and (port 464)) and port 53"

three_services-nothing : structural_check unchanged three_services ≡ some bpf_matches_nothing
unfolding structural_check parse_constraints parse_tokens tokenize put_word find_tokens is_space
    next_depth falls is_bracket splits add_token split_from split_top_level balanced drop_last
    ends_closing is_wrapped inner strip_rounds strip_parens digits_value number_of ports_named
    parse_port parse_slots named_protocol parse_term parse_alternative parse_all one_constraint
    one_term extend_all tokens_eq collect_term collect_and collect_or collect_stripped collect
    is_negation bytes_eq structural_verdict satisfiable search_packets candidate_ports
    constraint_ports ports_of union insert_port holds alternative_holds rides_on port_in
three_services-nothing = refl

structural_check-Reads_example :
    ¬ Reads (Means AnyPacket) kerberos (tokenize unchanged three_services)
structural_check-Reads_example =
    structural_check-Reads AnyPacket unchanged three_services three_services-nothing kerberos

-- The tokens of `port 88 and (port 464)`.
abbrev two_services : Tokens
two_services =
    codes "port"
    ∷ codes "88"
    ∷ codes "and"
    ∷ codes "("
    ∷ codes "port"
    ∷ codes "464"
    ∷ codes ")"
    ∷ []

abbrev on_port : ℕ → Alternative
on_port n = record { ports = n ∷ []; src = true; dst = true; proto = none }

abbrev on_ports : List Constraint
on_ports =
    record { alternatives = on_port 88 ∷ [] } ∷ record { alternatives = on_port 464 ∷ [] } ∷ []

on_ports-parse_tokens : parse_tokens two_services ≡ some (some on_ports)
unfolding parse_tokens next_depth falls is_bracket splits add_token split_from split_top_level
    balanced drop_last ends_closing is_wrapped inner strip_rounds strip_parens digits_value
    number_of ports_named parse_port parse_slots named_protocol parse_term parse_alternative
    parse_all one_constraint one_term extend_all tokens_eq collect_term collect_and collect_or
    collect_stripped collect is_negation bytes_eq
on_ports-parse_tokens = refl

kerberos-Reads : Reads (Means AnyPacket) kerberos two_services
unfolding number_of digits_value next_depth falls is_bracket splits balanced drop_last ends_closing
    is_wrapped inner bytes_eq top
kerberos-Reads =
    both (codes "port" ∷ codes "88" ∷ []) (codes "(" ∷ codes "port" ∷ codes "464" ∷ codes ")" ∷ [])
      two_services (codes "and")
      (term _ (refl, refl, refl, refl) (Means-port kerberos (codes "88") 88 refl (inl refl)))
      (parens (codes "port" ∷ codes "464" ∷ []) _
        (term _ (refl, refl, refl, refl) (Means-port kerberos (codes "464") 464 refl (inr refl)))
        refl)
      refl refl

Meets-parse_tokens_example : All (Meets kerberos) on_ports
Meets-parse_tokens_example =
    Meets-parse_tokens AnyPacket kerberos two_services on_ports on_ports-parse_tokens kerberos-Reads

collect_total_example :
    (cs : List Constraint) × (collect 8 two_services ≡ some cs)
    × (collect 100 two_services ≡ some cs)
collect_total_example = collect_total 8 100 two_services (omega arith) (omega arith)
