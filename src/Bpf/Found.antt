-- ===== src/Bpf/Found.antt =====
-- From what the search of `_satisfiable` finds to a packet.
use pcap_server.Prelude.{
  ℕ, ◌≡◌, ◌≤◌, refl, Bool, true, List, [], ◌∷◌, Option, none, some, length, member, map, arith,
  ◌&&◌, ◌||◌, All, All-map, All-all_of, Some, Some-map, here, there, any_of, Some-any_of, all_of,
  ◌⊎◌, inl, inr, Bool-cases,
}
use pcap_server.Bpf.{
  Protocol, tcp, udp, sctp, protocols, max_candidate_ports, Alternative, Constraint,
  candidate_ports, rides_on, port_in, alternative_holds, holds, search_packets, satisfiable,
}
use pcap_server.Bpf.Search.{Packet, MeetsTerm, Meets}

-- Any port will do for a value that no term names.
abbrev port_for : Option ℕ → ℕ
port_for none = 0
port_for (some port) = port

Some-witness : {A : Type 0} {P : A → Type 0} (xs : List A) → Some P xs → (x : A) × P x
Some-witness [] s = elim s [ ]
Some-witness (x ∷ xs) (here h) = (x, h)
Some-witness (x ∷ xs) (there s) = Some-witness xs s

rides_on-cases :
    (o : Option Protocol) (proto : Protocol)
    → rides_on o proto ≡ true
    → (o ≡ none) ⊎ (o ≡ some proto)
unfolding rides_on
rides_on-cases none proto h = inl refl
rides_on-cases (some tcp) tcp h = inr refl
rides_on-cases (some udp) udp h = inr refl
rides_on-cases (some sctp) sctp h = inr refl
rides_on-cases (some tcp) udp h = cc h
rides_on-cases (some tcp) sctp h = cc h
rides_on-cases (some udp) tcp h = cc h
rides_on-cases (some udp) sctp h = cc h
rides_on-cases (some sctp) tcp h = cc h
rides_on-cases (some sctp) udp h = cc h

port_in-member :
    (o : Option ℕ) (ports : List ℕ) → port_in o ports ≡ true → member (port_for o) ports ≡ true
unfolding port_in
port_in-member none ports h = cc h
port_in-member (some port) ports h = h

MeetsTerm-alternative_holds :
    (proto : Protocol) (src dst : Option ℕ) (a : Alternative)
    → alternative_holds proto src dst a ≡ true
    → MeetsTerm (record { proto = proto; sport = port_for src; dport = port_for dst }) a
unfolding alternative_holds
MeetsTerm-alternative_holds proto src dst a h =
    let rides : rides_on a.proto proto ≡ true = ground arith in
    let by_src : a.src && port_in src a.ports || a.dst && port_in dst a.ports ≡ true =
      ground arith in
    (
      rides_on-cases a.proto proto rides,
      elim (Bool-cases (a.src && port_in src a.ports)) [
        | inl from_src ↦ inl (ground arith, port_in-member src a.ports (ground arith))
        | inr other ↦ inr (ground arith, port_in-member dst a.ports (ground arith))
      ],
    )

Meets-holds :
    (proto : Protocol) (src dst : Option ℕ) (c : Constraint)
    → holds proto src dst c ≡ true
    → Meets (record { proto = proto; sport = port_for src; dport = port_for dst }) c
unfolding holds
Meets-holds proto src dst c h =
    Some-map _ _ c.alternatives (λ a t. MeetsTerm-alternative_holds proto src dst a t)
      (Some-any_of (alternative_holds proto src dst) c.alternatives h)

search_packets-found :
    (cs : List Constraint) (values : List (Option ℕ))
    → search_packets cs values ≡ true
    → (p : Packet) × All (Meets p) cs
unfolding search_packets
search_packets-found cs values h =
    let by_dst : Protocol → Option ℕ → Option ℕ → Bool =
      λ proto src dst. all_of (holds proto src dst) cs in
    let by_src : Protocol → Option ℕ → Bool = λ proto src. any_of (by_dst proto src) values in
    let (proto, h₁) =
      Some-witness protocols (Some-any_of (λ q. any_of (by_src q) values) protocols h) in
    let (src, h₂) = Some-witness values (Some-any_of (by_src proto) values h₁) in
    let (dst, h₃) = Some-witness values (Some-any_of (by_dst proto src) values h₂) in
    (
      record { proto = proto; sport = port_for src; dport = port_for dst },
      All-map _ _ cs (λ c t. Meets-holds proto src dst c t)
          (All-all_of (holds proto src dst) cs h₃),
    )

-- Where at most 64 ports are named, `_satisfiable` answers true only if one packet, its two ports
-- any numbers, meets every constraint.
pub Meets-satisfiable :
    (cs : List Constraint)
    → length (candidate_ports cs) ≤ max_candidate_ports
    → satisfiable cs ≡ true
    → (p : Packet) × All (Meets p) cs
unfolding satisfiable
Meets-satisfiable [] few h = (record { proto = tcp; sport = 0; dport = 0 }, tt)
Meets-satisfiable (c ∷ cs) few h =
    search_packets-found (c ∷ cs) (none ∷ map some (candidate_ports (c ∷ cs)))
      (ground (arith, few, h))
