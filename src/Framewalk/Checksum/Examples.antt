-- ===== src/Framewalk/Checksum/Examples.antt =====
-- Tests of `refresh_checksums`, and its theorems at a concrete edit.
use pcap_server.Prelude.{
  ℕ, ◌<◌, ◌≡◌, ◌⊎◌, inr, refl, [], ◌∷◌, none, Bytes, get_or, All, arith, bytes_eq, from_bytes_on,
}
use pcap_server.Framewalk.{done, ipv4, Scope, Layout, u16, address, header_end, add_scope}
use pcap_server.Framewalk.Transport.{transport}
use pcap_server.Framewalk.Network
use pcap_server.Framewalk.Network.{ipv4_body}
use pcap_server.Framewalk.Link.{raw_ip}
use pcap_server.Framewalk.Walk.{link, walk}
use pcap_server.Framewalk.Checksum.{
  ones_sum, pseudo_bytes, zero_field, covered, field_value, total_sum, updated_checksum,
  write_field, refresh_scope, refresh_checksums,
}
use pcap_server.Framewalk.Checksum.Receiver.{receiver_words}
use pcap_server.Framewalk.Checksum.Walked.{
  receiver_sum-refresh_walk, get_or-refresh_walk, refresh_scope_nonzero,
}

-- A raw IPv4 header with no transport that the walker follows, and the last byte of its source.
abbrev packet : ℕ → Bytes
packet last =
    0x45 ∷ 0 ∷ 0 ∷ 20 ∷ 0 ∷ 1 ∷ 0 ∷ 0 ∷ 64 ∷ 59 ∷ 0x66 ∷ 0xAC ∷ 10 ∷ 0 ∷ 0 ∷ last ∷ 10 ∷ 0 ∷ 0 ∷ 2
    ∷ []

abbrev header_scope : Scope
header_scope = record { checksum_at = 10; start = 0; end = 20; pseudo = [] }

abbrev packet_layout : Layout
packet_layout = record {
  addresses = (12, ipv4) ∷ (16, ipv4) ∷ [];
  scopes = header_scope ∷ [];
  payload_start = 20;
  transport = none;
}

walk-packet : walk (packet 1) 12 ≡ done packet_layout
unfolding walk link raw_ip Network.ipv4 ipv4_body transport u16 address header_end add_scope
walk-packet = refl

-- The source grows by 6, and the checksum falls by 6.
refresh-packet :
    refresh_checksums (packet 1) (packet 7) (header_scope ∷ [])
    ≡ 0x45 ∷ 0 ∷ 0 ∷ 20 ∷ 0 ∷ 1 ∷ 0 ∷ 0 ∷ 64 ∷ 59 ∷ 0x66 ∷ 0xA6 ∷ 10 ∷ 0 ∷ 0 ∷ 7 ∷ 10 ∷ 0 ∷ 0 ∷ 2
      ∷ []
unfolding refresh_checksums refresh_scope covered zero_field pseudo_bytes bytes_eq total_sum
    ones_sum from_bytes_on updated_checksum field_value write_field
refresh-packet = refl

receiver_sum-refresh_walk_example :
    All
      (λ s.
        receiver_words (refresh_checksums (packet 1) (packet 7) packet_layout.scopes) s
        ≡ receiver_words (packet 1) s)
      packet_layout.scopes
receiver_sum-refresh_walk_example =
    receiver_sum-refresh_walk (packet 1) (packet 7) 12 packet_layout walk-packet refl (omega arith)
      ((refl, refl), tt)

get_or-refresh_walk_example :
    get_or (refresh_checksums (packet 1) (packet 7) packet_layout.scopes) 15 0
    ≡ get_or (packet 7) 15 0
get_or-refresh_walk_example =
    get_or-refresh_walk (packet 1) (packet 7) 12 packet_layout 15 walk-packet refl
      (inr (omega arith), tt)

refresh_scope_nonzero_example :
    (refresh_scope (packet 1) (packet 7) header_scope ≡ packet 7)
    ⊎ (0 < field_value (refresh_scope (packet 1) (packet 7) header_scope) 10)
refresh_scope_nonzero_example =
    refresh_scope_nonzero (packet 1) (packet 7) header_scope
      (record {
        start_le_field = omega arith;
        field_within = omega arith;
        end_within = omega arith;
        pseudo_before = tt;
      })
      (omega arith)
