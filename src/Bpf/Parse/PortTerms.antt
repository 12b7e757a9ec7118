-- ===== src/Bpf/Parse/PortTerms.antt =====
-- What a port term says of a packet, from its words: apart from the code that reads them.
use pcap_server.Prelude.{ℕ, ◌+◌, ◌*◌, ◌≡◌, ◌≤◌, [], ◌∷◌, ◌++◌, Option, none, some, Text, ◌⊎◌}
use pcap_server.Sanitizer.Texts.{codes}
use pcap_server.Bpf.{Protocol, tcp, udp, sctp}
use pcap_server.Bpf.Search.{Packet}
use pcap_server.Bpf.Tokens.{Tokens}

-- Decimal digits, and the number that they write.
pub data IsNumeral : Text → ℕ → Type 0 where
  digit : (d : ℕ) → d ≤ 9 → IsNumeral ((0x30 + d) ∷ []) d
  behind :
      (u : Text) (n d : ℕ) → IsNumeral u n → d ≤ 9 → IsNumeral (u ++ (0x30 + d) ∷ []) (n * 10 + d)

-- The words of a port, and of a range from its lower end to its higher.
pub data PortWords : Tokens → ℕ → ℕ → Type 0 where
  one_port : (u : Text) (n : ℕ) → IsNumeral u n → PortWords (codes "port" ∷ u ∷ []) n n
  port_range :
      (u w : Text) (low high : ℕ)
      → IsNumeral u low
      → IsNumeral w high
      → low ≤ high
      → PortWords (codes "portrange" ∷ (u ++ 0x2D ∷ w) ∷ []) low high

pub data Direction : Type 0 where
  source : Direction
  destination : Direction
  either_end : Direction

pub record PortTerm : Type 0 where
  pub proto : Option Protocol
  pub direction : Direction
  pub low : ℕ
  pub high : ℕ

abbrev pub protocol_words : Option Protocol → Tokens
protocol_words none = []
protocol_words (some tcp) = codes "tcp" ∷ []
protocol_words (some udp) = codes "udp" ∷ []
protocol_words (some sctp) = codes "sctp" ∷ []

abbrev pub direction_words : Direction → Tokens
direction_words source = codes "src" ∷ []
direction_words destination = codes "dst" ∷ []
direction_words either_end = []

-- Tokens that write a port term.
abbrev pub Writes : Tokens → PortTerm → Type 0
Writes ts f =
    (vs : Tokens) × (ts ≡ protocol_words f.proto ++ (direction_words f.direction ++ vs))
    × PortWords vs f.low f.high

abbrev pub Through : Packet → Direction → ℕ → ℕ → Type 0
Through p source low high = (low ≤ p.sport) × (p.sport ≤ high)
Through p destination low high = (low ≤ p.dport) × (p.dport ≤ high)
Through p either_end low high =
    ((low ≤ p.sport) × (p.sport ≤ high)) ⊎ ((low ≤ p.dport) × (p.dport ≤ high))

-- A packet of the term's protocol, with a port of the term's direction within its range.
abbrev pub Satisfies : Packet → PortTerm → Type 0
Satisfies p f = ((f.proto ≡ none) ⊎ (f.proto ≡ some p.proto)) × Through p f.direction f.low f.high

-- A packet meets a term: a port term as its words say, and any other term as `Other` says.
abbrev pub Means {ℓ} : (Packet → Tokens → Type ℓ) → Packet → Tokens → Type ℓ
Means Other p ts =
    ((f : PortTerm) → Writes ts f → Satisfies p f) × (((f : PortTerm) → ¬ Writes ts f) → Other p ts)
