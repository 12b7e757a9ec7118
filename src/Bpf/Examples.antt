-- ===== src/Bpf/Examples.antt =====
-- The filter of two ports in the module's own notes.
use pcap_server.Prelude.{
  ℕ, ◌≡◌, refl, true, List, [], ◌∷◌, none, some, inl, inr, All, Pairwise, here, arith, length, ◌≤◌,
}
use pcap_server.Bpf.{
  search_packets, candidate_ports, constraint_ports, ports_of, union, insert_port, holds,
  alternative_holds, rides_on, port_in, pairwise_disjoint, disjoint, max_candidate_ports, tcp,
  Constraint, satisfiable, structural_verdict, bpf_cross_service_only, port_sets,
}
use pcap_server.Bpf.Search.{Packet, Meets}
use pcap_server.Bpf.Found.{Meets-satisfiable}
use pcap_server.Bpf.Warnings.{structural_verdict-Between, Between}

-- `port N`
abbrev bare_port : ℕ → Constraint
bare_port n = record {
  alternatives = record { ports = n ∷ []; src = true; dst = true; proto = none } ∷ [];
}

-- `port 88 and port 464`.
abbrev two_ports : List Constraint
two_ports = bare_port 88 ∷ bare_port 464 ∷ []

abbrev kerberos : Packet
kerberos = record { proto = tcp; sport = 88; dport = 464 }

structural-two_ports : structural_verdict (some two_ports) ≡ bpf_cross_service_only
unfolding structural_verdict satisfiable search_packets candidate_ports constraint_ports ports_of
    union insert_port holds alternative_holds rides_on port_in port_sets pairwise_disjoint disjoint
structural-two_ports = refl

structural_verdict-Between_example : Pairwise (Between kerberos) (port_sets two_ports)
structural_verdict-Between_example =
    structural_verdict-Between two_ports structural-two_ports kerberos
      (here (inl refl, inl (refl, refl)), (here (inl refl, inr (refl, refl)), tt))

satisfiable-two_ports : satisfiable two_ports ≡ true
unfolding satisfiable search_packets candidate_ports constraint_ports ports_of union insert_port
    holds alternative_holds rides_on port_in
satisfiable-two_ports = refl

few-two_ports : length (candidate_ports two_ports) ≤ max_candidate_ports
unfolding candidate_ports constraint_ports ports_of union insert_port
few-two_ports = omega arith

Meets-satisfiable_example : (p : Packet) × All (Meets p) two_ports
Meets-satisfiable_example = Meets-satisfiable two_ports few-two_ports satisfiable-two_ports
