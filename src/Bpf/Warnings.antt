-- ===== src/Bpf/Warnings.antt =====
-- What the warnings of structural_check say, about every packet.
use pcap_server.Prelude.{
  ℕ, ◌≡◌, true, List, [], ◌∷◌, some, member, arith, All, All-zip, All-all_of, Pairwise, Some, here,
  there, ◌⊎◌, inl, inr, Bool-cases, ◌==◌, ==→eq, subst,
}
use pcap_server.Bpf.{
  Alternative, Constraint, constraint_ports, disjoint, pairwise_disjoint, keep_named, port_sets,
  ports_of, bpf_matches_nothing, bpf_cross_service_only, structural_verdict,
}
use pcap_server.Bpf.Search.{
  Packet, MeetsTerm, Meets, satisfiable-Meets, Within, All-Within_alternatives, Some-in,
}

-- After the warning that the filter cannot match any packet, no packet meets all its constraints.
pub structural_verdict_nothing :
    (cs : List Constraint)
    → structural_verdict (some cs) ≡ bpf_matches_nothing
    → (p : Packet) → ¬ All (Meets p) cs
unfolding structural_verdict
structural_verdict_nothing cs h p m = let sat = satisfiable-Meets p cs m in ground (arith, h, sat)

-- A port of the packet is in the set: the source, or the destination.
abbrev Touches : Packet → List ℕ → Type 0
Touches p ports = (member p.sport ports ≡ true) ⊎ (member p.dport ports ≡ true)

-- One port is in the one set, the other port in the other.
abbrev pub Between : Packet → List ℕ → List ℕ → Type 0
Between p a b =
    ((member p.sport a ≡ true) × (member p.dport b ≡ true))
    ⊎ ((member p.dport a ≡ true) × (member p.sport b ≡ true))

Some-Touches :
    (p : Packet) (ports : List ℕ) (alts : List Alternative)
    → Some (λ a. Touches p ports) alts
    → Touches p ports
Some-Touches p ports [] s = elim s [ ]
Some-Touches p ports (a ∷ alts) (here t) = t
Some-Touches p ports (a ∷ alts) (there s) = Some-Touches p ports alts s

Touches-term :
    (p : Packet) (ports : List ℕ) (a : Alternative)
    → Within a.ports ports
    → MeetsTerm p a
    → Touches p ports
Touches-term p ports a w (r, inl (slot, h)) = inl (w p.sport h)
Touches-term p ports a w (r, inr (slot, h)) = inr (w p.dport h)

Touches-Meets : (p : Packet) (c : Constraint) → Meets p c → Touches p (constraint_ports c)
unfolding constraint_ports
Touches-Meets p c m = Some-Touches p (ports_of c.alternatives) c.alternatives (
    Some-in c.alternatives (λ a w t. Touches-term p (ports_of c.alternatives) a w t)
      (All-Within_alternatives c.alternatives) m)

All-keep_named :
    (p : Packet) (ports : List ℕ) (sets : List (List ℕ))
    → Touches p ports
    → All (Touches p) sets
    → All (Touches p) (keep_named ports sets)
All-keep_named p [] sets t ts = ts
All-keep_named p (x ∷ xs) sets t ts = (t, ts)

All-Touches :
    (p : Packet) (cs : List Constraint) → All (Meets p) cs → All (Touches p) (port_sets cs)
unfolding port_sets
All-Touches p [] m = tt
All-Touches p (c ∷ cs) m =
    All-keep_named p (constraint_ports c) (port_sets cs) (Touches-Meets p c m.0)
      (All-Touches p cs m.1)

member-apart :
    (x : ℕ) (a b : List ℕ) → disjoint a b ≡ true → member x a ≡ true → member x b ≡ true → ⊥
unfolding disjoint
member-apart x [] b d ha hb = cc ha
member-apart x (y ∷ a) b d ha hb = elim (Bool-cases (x == y)) [
  | inl same ↦
      let e = ==→eq x y same in
      let here_too : member y b ≡ true = subst (λ z. member z b ≡ true) e hb in
      ground (arith, d, here_too)
  | inr other ↦ member-apart x a b (ground (arith, d)) (ground (arith, ha, other)) hb
]

Between-Touches :
    (p : Packet) (a b : List ℕ) → Touches p a → disjoint a b ≡ true → Touches p b → Between p a b
Between-Touches p a b (inl s) d (inl t) = absurd (member-apart p.sport a b d s t)
Between-Touches p a b (inl s) d (inr t) = inl (s, t)
Between-Touches p a b (inr s) d (inl t) = inr (s, t)
Between-Touches p a b (inr s) d (inr t) = absurd (member-apart p.dport a b d s t)

Pairwise-Between :
    (p : Packet) (sets : List (List ℕ))
    → pairwise_disjoint sets ≡ true
    → All (Touches p) sets
    → Pairwise (Between p) sets
unfolding pairwise_disjoint
Pairwise-Between p [] d t = tt
Pairwise-Between p (a ∷ rest) d t = (
  All-zip _ _ _ rest (λ b e u. Between-Touches p a b t.0 e u)
      (All-all_of (disjoint a) rest (ground (arith, d))) t.1,
  Pairwise-Between p rest (ground (arith, d)) t.1,
)

-- After the warning that the filter matches only traffic between services, every packet that meets
-- all constraints runs between any two of their port sets: one of its ports is in the first, and
-- the other in the second.
pub structural_verdict-Between :
    (cs : List Constraint)
    → structural_verdict (some cs) ≡ bpf_cross_service_only
    → (p : Packet) → All (Meets p) cs
    → Pairwise (Between p) (port_sets cs)
unfolding structural_verdict
structural_verdict-Between cs h p m =
    Pairwise-Between p (port_sets cs) (ground (arith, h)) (All-Touches p cs m)
