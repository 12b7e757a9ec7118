-- ===== src/Bpf/Parse/Senses.antt =====
-- `_parse_alternative` takes a port term in the sense of its words.
use pcap_server.Prelude.{
  ℕ, ◌≡◌, refl, sym, ap, ◌∙◌, subst, true, false, [], ◌∷◌, ◌++◌, Option, none, some, Text, inl, inr,
  ◌⊎◌, if◌then◌else◌, member, bytes_eq, bytes_eq→eq,
}
use mathlib.Core.Option.{some-injective}
use pcap_server.Anonymize.Names.{member_text}
use pcap_server.Sanitizer.Texts.{codes}
use pcap_server.Bpf.{Protocol, Alternative}
use pcap_server.Bpf.Search.{Packet, MeetsTerm}
use pcap_server.Bpf.Tokens.{Tokens}
use pcap_server.Bpf.Parse.{parse_slots, named_protocol, layer_words, parse_term}
use pcap_server.Bpf.Parse.PortTerms.{
  PortWords, Direction, source, destination, either_end, PortTerm, protocol_words, direction_words,
  Writes, Through, Satisfies, Means,
}
use pcap_server.Bpf.Parse.Numerals.{taken-if}
use pcap_server.Bpf.Parse.Named.{Named-parse_port}

abbrev MeetsPort : Packet → Alternative → Type 0
MeetsPort p a =
    ((a.src ≡ true) × (member p.sport a.ports ≡ true))
    ⊎ ((a.dst ≡ true) × (member p.dport a.ports ≡ true))

-- From the direction on: the words, and that a packet which they take is taken.
abbrev Directed : Option Protocol → Tokens → Alternative → Type 0
Directed proto ts a =
    (d : Direction) × (vs : Tokens) × (low high : ℕ) × (ts ≡ direction_words d ++ vs)
    × PortWords vs low high
    × (a.proto ≡ proto)
    × ((p : Packet) → Through p d low high → MeetsPort p a)

Directed-parse_slots :
    (proto : Option Protocol) (ts : Tokens) (a : Alternative)
    → parse_slots proto ts ≡ some a
    → Directed proto ts a
unfolding parse_slots
Directed-parse_slots proto [] a h = absurd (cc h)
Directed-parse_slots proto (t ∷ ts) a h =
    taken-if (bytes_eq t (codes "src")) _ _ a
      (λ src found.
        let ((low, high, words, covers), proto_is, src_is, dst_is) =
          Named-parse_port proto true false ts a found in
        (
          source,
          ts,
          low,
          high,
          ap (λ w. w ∷ ts) (bytes_eq→eq t (codes "src") src),
          words,
          proto_is,
          λ p through. inl (src_is, covers p.sport through.0 through.1),
        ))
      (λ other later.
        taken-if (bytes_eq t (codes "dst")) _ _ a
          (λ dst found.
            let ((low, high, words, covers), proto_is, src_is, dst_is) =
              Named-parse_port proto false true ts a found in
            (
              destination,
              ts,
              low,
              high,
              ap (λ w. w ∷ ts) (bytes_eq→eq t (codes "dst") dst),
              words,
              proto_is,
              λ p through. inr (dst_is, covers p.dport through.0 through.1),
            ))
          (λ neither found.
            let ((low, high, words, covers), proto_is, src_is, dst_is) =
              Named-parse_port proto true true (t ∷ ts) a found in
            (
              either_end,
              t ∷ ts,
              low,
              high,
              refl,
              words,
              proto_is,
              λ p through. elim through [
                | inl at_source ↦ inl (src_is, covers p.sport at_source.0 at_source.1)
                | inr at_destination ↦
                    inr (dst_is, covers p.dport at_destination.0 at_destination.1)
              ],
            ))
          later)
      h

protocol_words-named_protocol :
    (t : Text) (proto : Protocol)
    → named_protocol t ≡ some proto
    → t ∷ [] ≡ protocol_words (some proto)
unfolding named_protocol
protocol_words-named_protocol t proto h =
    taken-if (bytes_eq t (codes "tcp")) _ _ proto
      (λ e found.
        ap (λ w. w ∷ []) (bytes_eq→eq t (codes "tcp") e)
        ∙ ap (λ q. protocol_words (some q)) (some-injective _ _ found))
      (λ other later.
        taken-if (bytes_eq t (codes "udp")) _ _ proto
          (λ e found.
            ap (λ w. w ∷ []) (bytes_eq→eq t (codes "udp") e)
            ∙ ap (λ q. protocol_words (some q)) (some-injective _ _ found))
          (λ another last.
            taken-if (bytes_eq t (codes "sctp")) _ _ proto
              (λ e found.
                ap (λ w. w ∷ []) (bytes_eq→eq t (codes "sctp") e)
                ∙ ap (λ q. protocol_words (some q)) (some-injective _ _ found))
              (λ neither found. absurd (cc found)) last)
          later)
      h

-- The term that some tokens write, and that a packet which satisfies it is taken.
abbrev Read : Tokens → Alternative → Type 0
Read ts a = (f : PortTerm) × Writes ts f × ((p : Packet) → Satisfies p f → MeetsTerm p a)

Read-Directed :
    (proto : Option Protocol) (ts : Tokens) (a : Alternative)
    → Directed proto ts a
    → Read (protocol_words proto ++ ts) a
Read-Directed proto ts a (d, vs, low, high, e, words, proto_is, taken) = (
  record { proto = proto; direction = d; low = low; high = high },
  (vs, ap (λ zs. protocol_words proto ++ zs) e, words),
  λ p s. (
    elim s.0 [ inl unnamed ↦ inl (proto_is ∙ unnamed) | inr named ↦ inr (proto_is ∙ named) ],
    taken p s.1,
  ),
)

Read-parse_term : (ts : Tokens) (a : Alternative) → parse_term ts ≡ some a → Read ts a
unfolding parse_term
Read-parse_term [] a h = absurd (cc h)
Read-parse_term (t ∷ ts) a h = by_protocol (named_protocol t) refl h
  where
    by_protocol :
        (o : Option Protocol)
        → named_protocol t ≡ o
        → ◌≡◌ {A = Option Alternative}
            (elim o [
              | some proto ↦ parse_slots (some proto) ts
              | none ↦ if member_text t layer_words then none else parse_slots none (t ∷ ts)
            ])
            (some a)
        → Read (t ∷ ts) a
    by_protocol (some proto) e k =
        subst (λ zs. Read (zs ++ ts) a) (sym (protocol_words-named_protocol t proto e))
          (Read-Directed (some proto) ts a (Directed-parse_slots (some proto) ts a k))
    by_protocol none e k =
        taken-if (member_text t layer_words) _ _ a (λ layer found. absurd (cc found))
          (λ other found.
            Read-Directed none (t ∷ ts) a (Directed-parse_slots none (t ∷ ts) a found))
          k

-- A packet that meets a term in its own sense meets it in the sense of `_parse_alternative`.
pub MeetsTerm-Means {ℓ} :
    (Other : Packet → Tokens → Type ℓ) (p : Packet) (ts : Tokens) (a : Alternative)
    → parse_term ts ≡ some a
    → Means Other p ts
    → MeetsTerm p a
MeetsTerm-Means Other p ts a h means =
    let (f, writes, taken) = Read-parse_term ts a h in taken p (means.0 f writes)
