-- ===== src/Framewalk/Walk/Examples.antt =====
-- Tests of `walk`, and its theorems at concrete frames.
use pcap_server.Prelude.{ℕ, ◌≡◌, refl, [], ◌∷◌, ◌++◌, some, none, Bytes, length}
use pcap_server.Framewalk.{
  done, mac, ipv4, TransportName, Layout, u16, address, header_end, add_scope, set_transport,
}
use pcap_server.Framewalk.Invariant.{IsLayout}
use pcap_server.Framewalk.Transport.{tcp, transport}
use pcap_server.Framewalk.Network.{ipv4_body}
use pcap_server.Framewalk.Network
use pcap_server.Framewalk.Link.{ethernet, ethertype, vlan_loop, network}
use pcap_server.Framewalk.Walk.{link, walk}
use pcap_server.Framewalk.Walk.Sound.{walk-IsLayout}

abbrev macs : Bytes
macs = 1 ∷ 2 ∷ 3 ∷ 4 ∷ 5 ∷ 6 ∷ 7 ∷ 8 ∷ 9 ∷ 10 ∷ 11 ∷ 12 ∷ []

-- An IPv4 header of 20 bytes, with the protocol and the total length given.
abbrev ipv4_header : ℕ → ℕ → Bytes
ipv4_header proto total =
    0x45 ∷ 0 ∷ 0 ∷ total ∷ 0 ∷ 1 ∷ 0 ∷ 0 ∷ 64 ∷ proto ∷ 0xAB ∷ 0xCD ∷ 10 ∷ 0 ∷ 0 ∷ 1 ∷ 10 ∷ 0 ∷ 0
    ∷ 2 ∷ []

abbrev tcp_header : Bytes
tcp_header =
    0x1F ∷ 0x90 ∷ 0 ∷ 80 ∷ 0 ∷ 0 ∷ 0 ∷ 1 ∷ 0 ∷ 0 ∷ 0 ∷ 0 ∷ 0x50 ∷ 0x02 ∷ 0x20 ∷ 0 ∷ 0x12 ∷ 0x34 ∷ 0
    ∷ 0 ∷ []

-- Ethernet with one VLAN tag, IPv4, TCP.
abbrev tagged : Bytes
tagged = macs ++ 0x81 ∷ 0 ∷ 0 ∷ 5 ∷ 0x08 ∷ 0 ∷ (ipv4_header 6 40 ++ tcp_header)

abbrev tagged_layout : Layout
tagged_layout = record {
  addresses = (0, mac) ∷ (6, mac) ∷ (30, ipv4) ∷ (34, ipv4) ∷ [];
  scopes =
      record { checksum_at = 28; start = 18; end = 38; pseudo = [] }
      ∷ record { checksum_at = 54; start = 38; end = 58; pseudo = (30, 4) ∷ (34, 4) ∷ [] }
      ∷ [];
  payload_start = 58;
  transport = some (TransportName.tcp, 8080, 80);
}

walk-tagged : walk tagged 1 ≡ done tagged_layout
unfolding walk link ethernet ethertype vlan_loop network Network.ipv4 ipv4_body transport tcp u16
    address header_end add_scope set_transport
walk-tagged = refl

-- A frame cut in the middle of an address yields no address that runs off the end.
walk_cut :
    walk (1 ∷ 2 ∷ 3 ∷ 4 ∷ []) 1
    ≡ done (record { addresses = []; scopes = []; payload_start = 0; transport = none })
unfolding walk link ethernet
walk_cut = refl

walk-IsLayout_example : (l : Layout) × (walk tagged 1 ≡ done l) × IsLayout (length tagged) l
walk-IsLayout_example = walk-IsLayout tagged 1 refl
