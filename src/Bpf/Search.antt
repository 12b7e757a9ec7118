-- ===== src/Bpf/Search.antt =====
-- The packets behind the search of `_satisfiable`, and how a packet shows in it.
use pcap_server.Prelude.{
  ℕ, ◌≡◌, refl, Bool, true, List, [], ◌∷◌, Option, none, some, member, map, ◌==◌, ==→eq, arith, All,
  All-map, All-zip, Some, Some-map, here, there, all_of, all_of-All, any_of, any_of-Some, ◌⊎◌, inl,
  inr, Bool-cases, subst, sym, if◌then◌else◌,
}
use pcap_server.Bpf.{
  Protocol, tcp, udp, sctp, protocols, Alternative, Constraint, insert_port, union, ports_of,
  constraint_ports, candidate_ports, rides_on, port_in, alternative_holds, holds, search_packets,
  satisfiable,
}

-- What of a packet a port term reads.
pub record Packet : Type 0 where
  pub proto : Protocol
  pub sport : ℕ
  pub dport : ℕ

-- A packet meets a port term: by its protocol, and by a port field that the term may use.
abbrev pub MeetsTerm : Packet → Alternative → Type 0
MeetsTerm p a =
    ((a.proto ≡ none) ⊎ (a.proto ≡ some p.proto))
    × (((a.src ≡ true) × (member p.sport a.ports ≡ true))
        ⊎ ((a.dst ≡ true) × (member p.dport a.ports ≡ true)))

abbrev pub Meets : Packet → Constraint → Type 0
Meets p c = Some (MeetsTerm p) c.alternatives

member-insert_port_self : (x : ℕ) (ys : List ℕ) → member x (insert_port x ys) ≡ true
unfolding insert_port
member-insert_port_self x [] = ground arith
member-insert_port_self x (y ∷ ys) = ground (arith, member-insert_port_self x ys)

member-insert_port :
    (x z : ℕ) (ys : List ℕ) → member z ys ≡ true → member z (insert_port x ys) ≡ true
unfolding insert_port
member-insert_port x z [] h = cc h
member-insert_port x z (y ∷ ys) h = elim (Bool-cases (z == y)) [
  | inl same ↦ ground (arith, same)
  | inr other ↦ ground (arith, h, other, member-insert_port x z ys)
]

abbrev pub Within : List ℕ → List ℕ → Type 0
Within ports more = (z : ℕ) → member z ports ≡ true → member z more ≡ true

Within-union_left : (xs ys : List ℕ) → Within xs (union xs ys)
unfolding union
Within-union_left [] ys z h = cc h
Within-union_left (x ∷ xs) ys z h = elim (Bool-cases (z == x)) [
  | inl same ↦
      let e : x ≡ z = sym (==→eq z x same) in
      subst (λ w. member z (insert_port w (union xs ys)) ≡ true) (sym e)
        (member-insert_port_self z (union xs ys))
  | inr other ↦
      member-insert_port x z (union xs ys) (Within-union_left xs ys z (ground (arith, h, other)))
]

Within-union_right : (xs ys : List ℕ) → Within ys (union xs ys)
unfolding union
Within-union_right [] ys z h = h
Within-union_right (x ∷ xs) ys z h =
    member-insert_port x z (union xs ys) (Within-union_right xs ys z h)

pub All-Within_alternatives :
    (alts : List Alternative) → All (λ a. Within a.ports (ports_of alts)) alts
unfolding ports_of
All-Within_alternatives [] = tt
All-Within_alternatives (a ∷ rest) = (
  Within-union_left a.ports (ports_of rest),
  All-map _ _ rest (λ b w z h. Within-union_right a.ports (ports_of rest) z (w z h))
      (All-Within_alternatives rest),
)

All-Within_constraints :
    (cs : List Constraint) → All (λ c. Within (constraint_ports c) (candidate_ports cs)) cs
unfolding candidate_ports
All-Within_constraints [] = tt
All-Within_constraints (c ∷ cs) = (
  Within-union_left (constraint_ports c) (candidate_ports cs),
  All-map _ _ cs (λ d w z h. Within-union_right (constraint_ports c) (candidate_ports cs) z (w z h))
      (All-Within_constraints cs),
)

-- A packet's port as a value of the search: itself where it is named, None for any other.
abbrev seen : List ℕ → ℕ → Option ℕ
seen candidates port = if member port candidates then some port else none

port_in-seen :
    (candidates ports : List ℕ) (port : ℕ)
    → Within ports candidates
    → member port ports ≡ true
    → port_in (seen candidates port) ports ≡ true
unfolding port_in
port_in-seen candidates ports port w h = let known = w port h in rw (known, h)

rides_on-meets :
    (o : Option Protocol) (proto : Protocol)
    → (o ≡ none) ⊎ (o ≡ some proto)
    → rides_on o proto ≡ true
unfolding rides_on
rides_on-meets o proto (inl e) = rw e
rides_on-meets o tcp (inr e) = rw e
rides_on-meets o udp (inr e) = rw e
rides_on-meets o sctp (inr e) = rw e

alternative_holds-MeetsTerm :
    (candidates : List ℕ) (p : Packet) (a : Alternative)
    → Within a.ports candidates
    → MeetsTerm p a
    → alternative_holds p.proto (seen candidates p.sport) (seen candidates p.dport) a ≡ true
unfolding alternative_holds
alternative_holds-MeetsTerm candidates p a w (r, inl (slot, h)) =
    let rides = rides_on-meets a.proto p.proto r in
    let inside = port_in-seen candidates a.ports p.sport w h in rw (rides, slot, inside)
alternative_holds-MeetsTerm candidates p a w (r, inr (slot, h)) =
    let rides = rides_on-meets a.proto p.proto r in
    let inside = port_in-seen candidates a.ports p.dport w h in ground (arith, rides, slot, inside)

pub Some-in :
    {P Q R : Alternative → Type 0} (xs : List Alternative)
    → ((a : Alternative) → P a → Q a → R a)
    → All P xs
    → Some Q xs
    → Some R xs
Some-in [] f h s = elim s [ ]
Some-in (x ∷ xs) f h (here q) = here (f x h.0 q)
Some-in (x ∷ xs) f h (there s) = there (Some-in xs f h.1 s)

holds-Meets :
    (candidates : List ℕ) (p : Packet) (c : Constraint)
    → Within (constraint_ports c) candidates
    → Meets p c
    → holds p.proto (seen candidates p.sport) (seen candidates p.dport) c ≡ true
unfolding holds constraint_ports
holds-Meets candidates p c w m = any_of-Some _ c.alternatives (
    Some-in c.alternatives
      (λ a v t. alternative_holds-MeetsTerm candidates p a (λ z h. w z (v z h)) t)
      (All-Within_alternatives c.alternatives) m)

Some-values :
    (candidates : List ℕ) (port : ℕ)
    → member port candidates ≡ true
    → Some (λ v. v ≡ some port) (map some candidates)
Some-values [] port h = cc h
Some-values (c ∷ cs) port h = elim (Bool-cases (port == c)) [
  | inl same ↦ let e = ==→eq port c same in here (cc e)
  | inr other ↦ there (Some-values cs port (ground (arith, h, other)))
]

Some-seen :
    (candidates : List ℕ) (port : ℕ)
    → Some (λ v. v ≡ seen candidates port) (none ∷ map some candidates)
Some-seen candidates port = elim (Bool-cases (member port candidates)) [
  | inl known ↦
      there
        (Some-map _ _ (map some candidates) (λ v e. rw known e) (Some-values candidates port known))
  | inr other ↦ here (rw other)
]

Some-protocols : (proto : Protocol) → Some (λ q. q ≡ proto) protocols
Some-protocols tcp = here refl
Some-protocols udp = there (here refl)
Some-protocols sctp = there (there (here refl))

-- A value at which a test passes is found in a list that has it.
any_of_at :
    {A : Type 0} (t : A → Bool) (a : A) (xs : List A)
    → t a ≡ true
    → Some (λ x. x ≡ a) xs
    → any_of t xs ≡ true
any_of_at t a xs h s =
    any_of-Some t xs (Some-map _ _ xs (λ x e. subst (λ y. t y ≡ true) (sym e) h) s)

search_packets-Meets :
    (p : Packet) (cs : List Constraint)
    → All (Meets p) cs
    → search_packets cs (none ∷ map some (candidate_ports cs)) ≡ true
unfolding search_packets
search_packets-Meets p cs m =
    let candidates = candidate_ports cs in
    let values = none ∷ map some candidates in
    any_of_at
      (λ proto. any_of (λ src. any_of (λ dst. all_of (holds proto src dst) cs) values) values)
      p.proto protocols
      (any_of_at (λ src. any_of (λ dst. all_of (holds p.proto src dst) cs) values)
        (seen candidates p.sport) values
        (any_of_at (λ dst. all_of (holds p.proto (seen candidates p.sport) dst) cs)
          (seen candidates p.dport) values
          (all_of-All _ cs (
            All-zip _ _ _ cs (λ c w h. holds-Meets candidates p c w h) (All-Within_constraints cs)
              m))
          (Some-seen candidates p.dport))
        (Some-seen candidates p.sport))
      (Some-protocols p.proto)

-- Where one packet meets every constraint, `_satisfiable` says so: a verdict of unsatisfiable is
-- right about every protocol and every pair of ports, the unnamed ones included.
pub satisfiable-Meets :
    (p : Packet) (cs : List Constraint) → All (Meets p) cs → satisfiable cs ≡ true
unfolding satisfiable
satisfiable-Meets p [] m = refl
satisfiable-Meets p (c ∷ cs) m =
    let found = search_packets-Meets p (c ∷ cs) m in ground (arith, found)
