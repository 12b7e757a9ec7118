-- ===== src/Framewalk/Transport.antt =====
-- backend/framewalk.py: `transport` and what rides on it.
-- `descend` is the call of a method at the next depth.
pub mod Leaves
pub mod Sound
use pcap_server.Prelude.{
  ℕ, zero, suc, ◌+◌, ◌*◌, max, Bool, true, false, not, ◌&&◌, ◌||◌, List, [], ◌∷◌, Bytes, leb, ltb,
  ◌==◌, member, length, shr, bit_and, if◌then◌else◌,
}
use pcap_server.Framewalk.{
  Outcome, done, out_of_fuel, ◌>>=◌, Kind, TransportName, Scope, Layout, Carried, ethernet_frame,
  ipv4_packet, ipv6_packet, ethertype_payload, Descend, has, byte_at, u16, address, header_end,
  add_scope, set_transport,
}

abbrev pub vxlan_port : ℕ
vxlan_port = 4789

abbrev pub geneve_port : ℕ
geneve_port = 6081

abbrev pub eth_transparent_bridging : ℕ
eth_transparent_bridging = 0x6558

abbrev pub icmp_errors : List ℕ
icmp_errors = 3 ∷ 4 ∷ 5 ∷ 11 ∷ 12 ∷ []

abbrev pub icmpv6_errors : List ℕ
icmpv6_errors = 1 ∷ 2 ∷ 3 ∷ 4 ∷ []

-- The pseudo header: the offset and the length of each address in it.
abbrev pub Pseudo : Type 0
Pseudo = List (ℕ × ℕ)

-- One neighbour discovery option, of `len` bytes.
unfoldable pub nd_option : Bytes → ℕ → ℕ → ℕ → Layout → Layout
nd_option f cur kind len l =
    if member kind (1 ∷ 2 ∷ []) && leb 8 len
    then address f (cur + 2) 6 Kind.mac l
    else if kind == 3 && leb 32 len
    then address f (cur + 16) 16 Kind.ipv6 l
    else l

-- The loop of `nd_options`; the first argument is the fuel.
unfoldable pub nd_options_loop : ℕ → Bytes → ℕ → ℕ → Layout → Outcome Layout
nd_options_loop zero f cur end l = out_of_fuel
nd_options_loop (suc k) f cur end l =
    if leb (cur + 2) end && has f cur 2
    then (do
      kind ← byte_at f cur
      units ← byte_at f (cur + 1)
      let len = units * 8
      let more = nd_options_loop k f (cur + len) end (nd_option f cur kind len l)
      if len == 0 then done l else more)
    else done l

unfoldable pub nd_options : Bytes → ℕ → ℕ → Layout → Outcome Layout
nd_options f cur end l = nd_options_loop (suc (length f)) f cur end l

unfoldable pub tcp : Bytes → ℕ → ℕ → Pseudo → Layout → Outcome Layout
tcp f off end pseudo l = if not (has f off 20) then done l else do
  let l₁ = add_scope (record { checksum_at = off + 16; start = off; end = end; pseudo = pseudo }) l
  b ← byte_at f (off + 12)
  let l₂ = header_end f (off + max (shr b 4 * 4) 20) l₁
  sport ← u16 f off
  dport ← u16 f (off + 2)
  done (set_transport TransportName.tcp sport dport l₂)

-- Where a GRE header with these flags ends: `cur` of `gre`.
unfoldable pub gre_end : ℕ → ℕ → ℕ
gre_end off flags =
    let cur₁ = if not (bit_and flags 0x8000 == 0) then off + 8 else off + 4 in
    let cur₂ = if not (bit_and flags 0x2000 == 0) then cur₁ + 4 else cur₁ in
    if not (bit_and flags 0x1000 == 0) then cur₂ + 4 else cur₂

-- The scope that `gre` appends where the flags announce a checksum.
unfoldable pub gre_scope : Bytes → ℕ → ℕ → ℕ → Layout → Layout
gre_scope f off end flags l =
    if not (bit_and flags 0x8000 == 0) && has f (off + 4) 2
    then add_scope (record { checksum_at = off + 4; start = off; end = end; pseudo = [] }) l
    else l

module _ (f : Bytes) (descend : Descend) where
  -- What a UDP datagram carries to the VXLAN or the GENEVE port.
  unfoldable pub udp_payload : ℕ → ℕ → ℕ → Layout → Outcome Layout
  udp_payload dport off depth l =
      if dport == vxlan_port && has f (off + 8) 8
      then (do
        flags ← byte_at f (off + 8)
        if not (bit_and flags 0x08 == 0)
            then descend ethernet_frame (off + 16) (depth + 1) (header_end f (off + 16) l)
            else done l)
      else if dport == geneve_port && has f (off + 8) 8
      then (do
        options ← byte_at f (off + 8)
        let inner = off + 16 + bit_and options 0x3F * 4
        let l₁ = header_end f inner l
        protocol ← u16 f (off + 10)
        if protocol == eth_transparent_bridging
            then descend ethernet_frame inner (depth + 1) l₁
            else descend (ethertype_payload protocol) inner (depth + 1) l₁)
      else done l

  unfoldable pub udp : ℕ → ℕ → Pseudo → ℕ → Bool → Layout → Outcome Layout
  udp off end pseudo depth ipv4 l = if not (has f off 8) then done l else do
    checksum ← u16 f (off + 6)
    let s : Scope = record { checksum_at = off + 6; start = off; end = end; pseudo = pseudo }
    let l₁ = if not (ipv4 && checksum == 0) then add_scope s l else l
    let l₂ = header_end f (off + 8) l₁
    sport ← u16 f off
    dport ← u16 f (off + 2)
    udp_payload dport off depth (set_transport TransportName.udp sport dport l₂)

  unfoldable pub icmp : ℕ → ℕ → ℕ → Layout → Outcome Layout
  icmp off end depth l = if not (has f off 8) then done l else do
    let s : Scope = record { checksum_at = off + 2; start = off; end = end; pseudo = [] }
    let l₁ = set_transport TransportName.icmp 0 0 (header_end f (off + 8) (add_scope s l))
    kind ← byte_at f off
    if member kind icmp_errors then descend ipv4_packet (off + 8) (depth + 1) l₁ else done l₁

  -- The branches of `icmpv6` on the message's type.
  unfoldable pub icmpv6_message : ℕ → ℕ → ℕ → ℕ → Layout → Outcome Layout
  icmpv6_message kind off end depth l =
      if member kind icmpv6_errors
      then descend ipv6_packet (off + 8) (depth + 1) l
      else if kind == 133
      then nd_options f (off + 8) end l
      else if kind == 134
      then nd_options f (off + 16) end l
      else if member kind (135 ∷ 136 ∷ [])
      then nd_options f (off + 24) end (address f (off + 8) 16 Kind.ipv6 l)
      else if kind == 137
      then nd_options f (off + 40) end
          (address f (off + 24) 16 Kind.ipv6 (address f (off + 8) 16 Kind.ipv6 l))
      else done l

  unfoldable pub icmpv6 : ℕ → ℕ → Pseudo → ℕ → Layout → Outcome Layout
  icmpv6 off end pseudo depth l = if not (has f off 8) then done l else do
    let s : Scope = record { checksum_at = off + 2; start = off; end = end; pseudo = pseudo }
    let l₁ = set_transport TransportName.icmpv6 0 0 (header_end f (off + 8) (add_scope s l))
    kind ← byte_at f off
    icmpv6_message kind off end depth l₁

  -- What a GRE header that ends at `cur` carries.
  unfoldable pub gre_payload : ℕ → ℕ → ℕ → Layout → Outcome Layout
  gre_payload off cur depth l = do
    let l₁ = header_end f cur l
    protocol ← u16 f (off + 2)
    if protocol == eth_transparent_bridging
        then descend ethernet_frame cur (depth + 1) l₁
        else descend (ethertype_payload protocol) cur (depth + 1) l₁

  unfoldable pub gre : ℕ → ℕ → ℕ → Layout → Outcome Layout
  gre off end depth l = if not (has f off 4) then done l else do
    flags ← u16 f off
    if not (bit_and flags 0x0007 == 0)
        then done l
        else gre_payload off (gre_end off flags) depth (gre_scope f off end flags l)

  unfoldable pub transport : ℕ → ℕ → ℕ → Pseudo → ℕ → Bool → Layout → Outcome Layout
  transport proto off end pseudo depth ipv4 l =
      if proto == 6
      then tcp f off end pseudo l
      else if proto == 17
      then udp off end pseudo depth ipv4 l
      else if proto == 1
      then icmp off end depth l
      else if proto == 58
      then icmpv6 off end pseudo depth l
      else if proto == 4
      then descend ipv4_packet off (depth + 1) l
      else if proto == 41
      then descend ipv6_packet off (depth + 1) l
      else if proto == 47
      then gre off end depth l
      else done l
