-- ===== src/Framewalk.antt =====
-- backend/framewalk.py: the layout that the walker reports, the outcome of its methods, and the
-- helpers of `_Walker`.
pub mod Invariant
pub mod Transport
pub mod Network
pub mod Link
pub mod Walk
pub mod Checksum
use pcap_server.Prelude.{
  ℕ, ◌+◌, min, ◌≡◌, Bool, List, [], ◌∷◌, ◌++◌, Option, none, some, Bytes, leb, length, get_elem?,
  shl, bit_or, if◌then◌else◌,
}

-- What a walk ends in. `index_error` is Python's IndexError; `out_of_fuel` is the model's own.
pub data Outcome (A : Type 0) : Type 0 where
  done : A → Outcome A
  index_error : Outcome A
  unsupported_link_type : ℕ → Outcome A
  out_of_fuel : Outcome A

infixl 5 ◌>>=◌
abbrev pub ◌>>=◌ : {A B : Type 0} → Outcome A → (A → Outcome B) → Outcome B
done a >>= k = k a
index_error >>= k = index_error
unsupported_link_type t >>= k = unsupported_link_type t
out_of_fuel >>= k = out_of_fuel

-- The kinds of address: "mac", "ipv4", "ipv6".
pub data Kind : Type 0 where
  mac ipv4 ipv6 : Kind

pub data TransportName : Type 0 where
  tcp udp icmp icmpv6 : TransportName

-- One checksum: where it is, what it covers, what else feeds it.
pub record Scope : Type 0 where
  pub checksum_at : ℕ
  pub start : ℕ
  pub end : ℕ
  pub pseudo : List (ℕ × ℕ)

pub record Layout : Type 0 where
  pub addresses : List (ℕ × Kind)
  pub scopes : List Scope
  pub payload_start : ℕ
  pub transport : Option (TransportName × ℕ × ℕ)

abbrev pub empty_layout : Layout
empty_layout = record { addresses = []; scopes = []; payload_start = 0; transport = none }

abbrev pub max_depth : ℕ
max_depth = 8

-- What a header can carry that is walked one level deeper.
pub data Carried : Type 0 where
  ethernet_frame ipv4_packet ipv6_packet : Carried
  ethertype_payload : ℕ → Carried

-- The call of a method one level deeper: what is carried, its offset and its depth.
abbrev pub Descend : Type 0
Descend = Carried → ℕ → ℕ → Layout → Outcome Layout

module _ (f : Bytes) where
  -- Offsets are never negative here.
  abbrev pub has : ℕ → ℕ → Bool
  has offset len = leb (offset + len) (length f)

  -- `self.f[offset]`
  unfoldable pub byte_at : ℕ → Outcome ℕ
  byte_at offset = elim (get_elem? f offset) [ none ↦ index_error | some b ↦ done b ]

  unfoldable pub u16 : ℕ → Outcome ℕ
  unfolding byte_at
  u16 offset = do hi ← byte_at offset; lo ← byte_at (offset + 1); done (bit_or (shl hi 8) lo)

  unfoldable pub address : ℕ → ℕ → Kind → Layout → Layout
  address offset len kind l =
      if has offset len then record l { addresses = l.addresses ++ (offset, kind) ∷ [] } else l

  unfoldable pub header_end : ℕ → Layout → Layout
  header_end offset l = record l { payload_start = min offset (length f) }

-- `self.layout.scopes.append(...)`
unfoldable pub add_scope : Scope → Layout → Layout
add_scope s l = record l { scopes = l.scopes ++ s ∷ [] }

unfoldable pub set_transport : TransportName → ℕ → ℕ → Layout → Layout
set_transport name sport dport l = record l { transport = some (name, sport, dport) }
