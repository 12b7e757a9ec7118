-- ===== src/Bpf/Parse/Named.antt =====
-- The ports that `_parse_alternative` takes from its last two words.
use pcap_server.Prelude.{
  ℕ, suc, ◌+◌, ◌-◌, ◌≡◌, ◌≤◌, refl, sym, ap, ap₂, ◌∙◌, subst, Bool, true, ◌&&◌, List, [], ◌∷◌, ◌++◌,
  Option, none, some, Text, arith, leb, member, bytes_eq, bytes_eq→eq,
}
use mathlib.Core.Option.{some-injective}
use pcap_server.Sanitizer.Texts.{codes}
use pcap_server.Bpf.{Protocol, max_candidate_ports, Alternative}
use pcap_server.Bpf.Tokens.{Tokens}
use pcap_server.Bpf.Parse.{
  number_of, split_dash, ports_from, range_ports, range_of, ports_named, parse_port,
}
use pcap_server.Bpf.Parse.PortTerms.{PortWords, one_port, port_range}
use pcap_server.Bpf.Parse.Numerals.{
  taken-if, taken-bind, IsNumeral-number_of, append-split_dash, member-ports_from,
}

abbrev pub Covers : List ℕ → ℕ → ℕ → Type 0
Covers ports low high = (z : ℕ) → low ≤ z → z ≤ high → member z ports ≡ true

abbrev pub Named : Tokens → List ℕ → Type 0
Named vs ports = (low high : ℕ) × PortWords vs low high × Covers ports low high

Covers-range_ports :
    (low high : ℕ) (ports : List ℕ)
    → range_ports low high ≡ some ports
    → (low ≤ high) × Covers ports low high
unfolding range_ports
Covers-range_ports low high ports h =
    taken-if (leb low high && leb (high - low) max_candidate_ports) _ _ ports
      (λ d found.
        let one_more : suc (high - low) ≡ high - low + 1 = omega arith in
        let made = ap (ports_from low) one_more ∙ some-injective _ _ found in
        (
          ground (arith, d),
          λ z l k.
              subst (λ xs. member z xs ≡ true) made
                (member-ports_from (high - low) low z l (ground (arith, d, k))),
        ))
      (λ d found. absurd (cc found)) h

-- The words that `_parse_alternative` takes as ports mean the ports that it takes them for.
Named-ports_named :
    (keyword value : Text) (ports : List ℕ)
    → ports_named keyword value ≡ some ports
    → Named (keyword ∷ value ∷ []) ports
unfolding ports_named range_of
Named-ports_named keyword value ports h =
    taken-if (bytes_eq keyword (codes "port")) _ _ ports
      (λ port found.
        taken-bind (number_of value) _ ports
          (λ n number one.
            let same = sym (bytes_eq→eq keyword (codes "port") port) in
            (
              n,
              n,
              subst (λ k. PortWords (k ∷ value ∷ []) n n) same
                  (one_port value n (IsNumeral-number_of value n number)),
              λ z l k.
                  subst (λ xs. member z xs ≡ true) (some-injective _ _ one) (ground (arith, l, k)),
            ))
          found)
      (λ other found.
        taken-if (bytes_eq keyword (codes "portrange")) _ _ ports
          (λ range_word ranged.
            by_split (bytes_eq→eq keyword (codes "portrange") range_word) (split_dash value)
              (append-split_dash value) ranged)
          (λ neither ranged. absurd (cc ranged)) found)
      h
  where
    by_split :
        keyword ≡ codes "portrange"
        → (o : Option (Text × Text)) → ((u w : Text) → o ≡ some (u, w) → value ≡ u ++ 0x2D ∷ w)
        → elim o [
          | none ↦ none
          | some (u, w) ↦ elim (number_of u) [
            | none ↦ none
            | some low ↦ elim (number_of w) [ none ↦ none | some high ↦ range_ports low high ]
          ]
        ]
          ≡ some ports
        → Named (keyword ∷ value ∷ []) ports
    by_split e none before k = absurd (cc k)
    by_split e (some (u, w)) before k =
        taken-bind (number_of u) _ ports
          (λ low low_is found.
            taken-bind (number_of w) _ ports
              (λ high high_is made.
                let (order, covers) = Covers-range_ports low high ports made in
                (
                  low,
                  high,
                  subst (λ ts. PortWords ts low high)
                      (sym (ap₂ (λ a b. a ∷ b ∷ []) e (before u w refl)))
                      (port_range u w low high (IsNumeral-number_of u low low_is)
                        (IsNumeral-number_of w high high_is) order),
                  covers,
                ))
              found)
          k

pub Named-parse_port :
    (proto : Option Protocol) (src dst : Bool) (ts : Tokens) (a : Alternative)
    → parse_port proto src dst ts ≡ some a
    → Named ts a.ports × (a.proto ≡ proto) × (a.src ≡ src) × (a.dst ≡ dst)
unfolding parse_port
Named-parse_port proto src dst [] a h = absurd (cc h)
Named-parse_port proto src dst (t ∷ []) a h = absurd (cc h)
Named-parse_port proto src dst (t ∷ u ∷ v ∷ ts) a h = absurd (cc h)
Named-parse_port proto src dst (t ∷ u ∷ []) a h =
    taken-bind (ports_named t u) _ a
      (λ ports named made.
        let same = some-injective _ _ made in
        (
          subst (λ b. Named (t ∷ u ∷ []) b.ports) same (Named-ports_named t u ports named),
          sym (ap (λ b. b.proto) same),
          sym (ap (λ b. b.src) same),
          sym (ap (λ b. b.dst) same),
        ))
      h
