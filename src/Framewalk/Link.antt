-- ===== src/Framewalk/Link.antt =====
-- backend/framewalk.py: the link layer, down to the choice of the network protocol.
pub mod Sound
use pcap_server.Prelude.{
  ℕ, zero, suc, ◌+◌, ◌*◌, Bool, true, false, not, ◌&&◌, ◌||◌, List, [], ◌∷◌, ◌++◌, Bytes, leb, ltb,
  ◌==◌, member, length, take, drop, shr, bit_and, if◌then◌else◌, big_endian, little_endian,
}
use pcap_server.Framewalk.{
  Outcome, done, out_of_fuel, ◌>>=◌, Kind, Layout, Descend, max_depth, has, byte_at, u16, address,
  header_end,
}
use pcap_server.Framewalk.Network.{eth_ipv4, arp, ipv4, ipv6}

abbrev pub eth_ipv6 : ℕ
eth_ipv6 = 0x86DD

abbrev pub eth_vlan : List ℕ
eth_vlan = 0x8100 ∷ 0x88A8 ∷ 0x9100 ∷ []

abbrev pub eth_arp : List ℕ
eth_arp = 0x0806 ∷ 0x8035 ∷ []

abbrev pub eth_mpls : List ℕ
eth_mpls = 0x8847 ∷ 0x8848 ∷ []

abbrev pub eth_pppoe_session : ℕ
eth_pppoe_session = 0x8864

-- `any(f in values for f in families)`
abbrev pub any_member : List ℕ → List ℕ → Bool
any_member [] values = false
any_member (x ∷ xs) values = member x values || any_member xs values

module _ (f : Bytes) (descend : Descend) where
  unfoldable pub raw_ip : ℕ → ℕ → Layout → Outcome Layout
  raw_ip off depth l = if not (has f off 1) then done l else do
    b ← byte_at f off
    if shr b 4 == 4
        then ipv4 f descend off depth l
        else if shr b 4 == 6
        then ipv6 f descend off depth l
        else done l

  -- The loop of `mpls`; the first argument is the fuel.
  unfoldable pub mpls_loop : ℕ → ℕ → ℕ → Layout → Outcome Layout
  mpls_loop zero off depth l = out_of_fuel
  mpls_loop (suc k) off depth l =
      if has f off 4
      then (do
        b ← byte_at f (off + 2)
        let l₁ = header_end f (off + 4) l
        let more = mpls_loop k (off + 4) depth l₁
        if not (bit_and b 0x01 == 0) then raw_ip (off + 4) depth l₁ else more)
      else done l

  unfoldable pub mpls : ℕ → ℕ → Layout → Outcome Layout
  mpls off depth l = mpls_loop (suc (length f)) off depth l

  unfoldable pub pppoe : ℕ → ℕ → Layout → Outcome Layout
  pppoe off depth l = if not (has f off 8) then done l else do
    protocol ← u16 f (off + 6)
    let l₁ = header_end f (off + 8) l
    if protocol == 0x0021
        then ipv4 f descend (off + 8) depth l₁
        else if protocol == 0x0057
        then ipv6 f descend (off + 8) depth l₁
        else done l₁

  -- The branches of `ethertype` behind the VLAN tags.
  unfoldable pub network : ℕ → ℕ → ℕ → Layout → Outcome Layout
  network etype off depth l =
      if etype == eth_ipv4
      then ipv4 f descend off depth l
      else if etype == eth_ipv6
      then ipv6 f descend off depth l
      else if member etype eth_arp
      then arp f off l
      else if member etype eth_mpls
      then mpls off depth l
      else if etype == eth_pppoe_session
      then pppoe off depth l
      else done l

  -- The VLAN loop of `ethertype`, and what follows it; the first argument is the fuel.
  unfoldable pub vlan_loop : ℕ → ℕ → ℕ → ℕ → Layout → Outcome Layout
  vlan_loop zero etype off depth l = out_of_fuel
  vlan_loop (suc k) etype off depth l =
      if member etype eth_vlan && has f off 4
      then (do
        inner ← u16 f (off + 2)
        vlan_loop k inner (off + 4) depth (header_end f (off + 4) l))
      else network etype off depth l

  unfoldable pub ethertype : ℕ → ℕ → ℕ → Layout → Outcome Layout
  ethertype etype off depth l = vlan_loop (suc (length f)) etype off depth l

  unfoldable pub ethernet : ℕ → ℕ → Layout → Outcome Layout
  ethernet off depth l = if ltb max_depth depth || not (has f off 14) then done l else do
    let l₁ = address f (off + 6) 6 Kind.mac (address f off 6 Kind.mac l)
    etype ← u16 f (off + 12)
    ethertype etype (off + 14) depth (header_end f (off + 14) l₁)

  unfoldable pub sll : ℕ → Layout → Outcome Layout
  sll off l = if not (has f off 16) then done l else do
    len ← u16 f (off + 4)
    let l₁ = if len == 6 then address f (off + 6) 6 Kind.mac l else l
    etype ← u16 f (off + 14)
    ethertype etype (off + 16) 0 (header_end f (off + 16) l₁)

  unfoldable pub sll2 : ℕ → Layout → Outcome Layout
  sll2 off l = if not (has f off 20) then done l else do
    len ← byte_at f (off + 11)
    let l₁ = if len == 6 then address f (off + 12) 6 Kind.mac l else l
    etype ← u16 f off
    ethertype etype (off + 20) 0 (header_end f (off + 20) l₁)

  unfoldable pub loopback : ℕ → ℕ → Layout → Outcome Layout
  loopback off linktype l =
      if not (has f off 4)
      then done l
      else let family = take 4 (drop off f) in
        let families : List ℕ =
          if linktype == 108
          then big_endian family ∷ []
          else big_endian family ∷ little_endian family ∷ [] in
        let l₁ = header_end f (off + 4) l in
        if member 2 families
        then ipv4 f descend (off + 4) 0 l₁
        else if any_member families (10 ∷ 24 ∷ 28 ∷ 30 ∷ [])
        then ipv6 f descend (off + 4) 0 l₁
        else done l₁
