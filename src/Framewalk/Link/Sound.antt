-- ===== src/Framewalk/Link/Sound.antt =====
-- The link-layer methods of backend/framewalk.py under the invariant of a layout.
use pcap_server.Prelude.{
  ℕ, zero, suc, ◌+◌, ◌≤◌, ◌<◌, refl, not, ◌&&◌, List, [], ◌∷◌, Bytes, ◌==◌, member, length, take,
  drop, shr, bit_and, arith, big_endian, little_endian, if◌then◌else◌,
}
use pcap_server.Framewalk.{mac, Layout, Descend, max_depth, has, header_end}
use pcap_server.Framewalk.Invariant.{
  IsPartial, Ends, Ends-done, Ends-if, Ends-byte_at, Ends-u16, Ends-has, Ends-guard, IsPartial-if,
  DescendEnds,
}
use pcap_server.Framewalk.Invariant.Steps.{IsPartial-mono, IsPartial-header_end, IsPartial-address}
use pcap_server.Framewalk.Network.{eth_ipv4}
use pcap_server.Framewalk.Network.Sound.{arp-Ends, ipv4-Ends, ipv6-Ends}
use pcap_server.Framewalk.Link.{
  eth_ipv6, eth_vlan, eth_arp, eth_mpls, eth_pppoe_session, any_member, raw_ip, mpls_loop, mpls,
  pppoe, network, vlan_loop, ethertype, ethernet, sll, sll2, loopback,
}

-- To the next header, whose offset is `off`.
next :
    (f : Bytes) (off : ℕ) {a s : ℕ} {l : Layout}
    → (a ≤ off) × (s ≤ off)
    → IsPartial (length f) a s l
    → IsPartial (length f) off off (header_end f off l)
next f off le h = IsPartial-header_end f off refl (IsPartial-mono le.0 le.1 h)

module _ (f : Bytes) (descend : Descend) (depth : ℕ)
    (below : depth ≤ max_depth → DescendEnds f descend depth) where
  pub raw_ip-Ends :
      (off : ℕ) {l : Layout}
      → IsPartial (length f) off off l
      → Ends (length f) (raw_ip f descend off depth l)
  unfolding raw_ip
  raw_ip-Ends off h = Ends-has f off 1 (Ends-done h) λ fits. Ends-byte_at f off _ (omega arith) λ b.
      Ends-if (shr b 4 == 4) (λ _. ipv4-Ends f descend depth off below h)
        λ _. Ends-if (shr b 4 == 6) (λ _. ipv6-Ends f descend depth off below h) λ _. Ends-done h

  mpls_loop-Ends :
      (k off : ℕ) (l : Layout)
      → 0 < k
      → length f < off + k
      → IsPartial (length f) off off l
      → Ends (length f) (mpls_loop f descend k off depth l)
  unfolding mpls_loop
  mpls_loop-Ends zero off l pos room h = absurd (omega arith)
  mpls_loop-Ends (suc k) off l pos room h =
      Ends-if (has f off 4)
        (λ fits. Ends-byte_at f (off + 2) _ (ground arith) λ b.
          let h' = next f (off + 4) (omega arith) h in
          Ends-if (not (bit_and b 0x01 == 0)) (λ _. raw_ip-Ends (off + 4) h')
            λ _. mpls_loop-Ends k (off + 4) _ (ground arith) (omega arith) h')
        λ _. Ends-done h

  pppoe-Ends :
      (off : ℕ) {l : Layout}
      → IsPartial (length f) off off l
      → Ends (length f) (pppoe f descend off depth l)
  unfolding pppoe
  pppoe-Ends off h = Ends-has f off 8 (Ends-done h) λ fits.
      Ends-u16 f (off + 6) _ (omega arith) λ protocol.
        let h' = next f (off + 8) (omega arith) h in
        Ends-if (protocol == 0x0021) (λ _. ipv4-Ends f descend depth (off + 8) below h')
          λ _.
            Ends-if (protocol == 0x0057) (λ _. ipv6-Ends f descend depth (off + 8) below h')
              λ _. Ends-done h'

  network-Ends :
      (etype off : ℕ) {l : Layout}
      → IsPartial (length f) off off l
      → Ends (length f) (network f descend etype off depth l)
  unfolding network mpls
  network-Ends etype off h =
      Ends-if (etype == eth_ipv4) (λ _. ipv4-Ends f descend depth off below h)
        λ _.
          Ends-if (etype == eth_ipv6) (λ _. ipv6-Ends f descend depth off below h)
            λ _.
              Ends-if (member etype eth_arp) (λ _. arp-Ends f off off h)
                λ _.
                  Ends-if (member etype eth_mpls)
                    (λ _. mpls_loop-Ends (suc (length f)) off _ (omega arith) (omega arith) h)
                    λ _.
                      Ends-if (etype == eth_pppoe_session) (λ _. pppoe-Ends off h) λ _. Ends-done h

  vlan_loop-Ends :
      (k etype off : ℕ) (l : Layout)
      → 0 < k
      → length f < off + k
      → IsPartial (length f) off off l
      → Ends (length f) (vlan_loop f descend k etype off depth l)
  unfolding vlan_loop
  vlan_loop-Ends zero etype off l pos room h = absurd (omega arith)
  vlan_loop-Ends (suc k) etype off l pos room h =
      Ends-if (member etype eth_vlan && has f off 4)
        (λ fits. Ends-u16 f (off + 2) _ (ground arith) λ inner.
          vlan_loop-Ends k inner (off + 4) _ (ground arith) (omega arith)
            (next f (off + 4) (omega arith) h))
        λ _. network-Ends etype off h

  pub ethertype-Ends :
      (etype off : ℕ) {l : Layout}
      → IsPartial (length f) off off l
      → Ends (length f) (ethertype f descend etype off depth l)
  unfolding ethertype
  ethertype-Ends etype off h =
      vlan_loop-Ends (suc (length f)) etype off _ (omega arith) (omega arith) h

  pub ethernet-Ends :
      (off : ℕ) {l : Layout}
      → IsPartial (length f) off off l
      → Ends (length f) (ethernet f descend off depth l)
  unfolding ethernet
  ethernet-Ends off h = Ends-guard f depth off 14 (Ends-done h) λ shallow fits.
      Ends-u16 f (off + 12) _ (omega arith) λ etype. ethertype-Ends etype (off + 14) (
        next f (off + 14) (omega arith) (
          IsPartial-address f (off + 6) mac refl (omega arith)
            (IsPartial-address f off mac refl (omega arith) h)))

module _ (f : Bytes) (descend : Descend) (below : 0 ≤ max_depth → DescendEnds f descend 0) where
  pub sll-Ends :
      (off : ℕ) {l : Layout}
      → IsPartial (length f) off off l
      → Ends (length f) (sll f descend off l)
  unfolding sll
  sll-Ends off h = Ends-has f off 16 (Ends-done h) λ fits.
      Ends-u16 f (off + 4) _ (omega arith) λ len. Ends-u16 f (off + 14) _ (omega arith) λ etype.
        ethertype-Ends f descend 0 below etype (off + 16) (
          next f (off + 16) {a = off + 6 + 6} (omega arith) (
            IsPartial-if (len == 6) (λ _. IsPartial-address f (off + 6) mac refl (omega arith) h)
              λ _. IsPartial-mono (omega arith) (omega arith) h))

  pub sll2-Ends :
      (off : ℕ) {l : Layout}
      → IsPartial (length f) off off l
      → Ends (length f) (sll2 f descend off l)
  unfolding sll2
  sll2-Ends off h = Ends-has f off 20 (Ends-done h) λ fits.
      Ends-byte_at f (off + 11) _ (omega arith) λ len. Ends-u16 f off _ (omega arith) λ etype.
        ethertype-Ends f descend 0 below etype (off + 20) (
          next f (off + 20) {a = off + 12 + 6} (omega arith) (
            IsPartial-if (len == 6) (λ _. IsPartial-address f (off + 12) mac refl (omega arith) h)
              λ _. IsPartial-mono (omega arith) (omega arith) h))

  pub loopback-Ends :
      (off linktype : ℕ) {l : Layout}
      → IsPartial (length f) off off l
      → Ends (length f) (loopback f descend off linktype l)
  unfolding loopback
  loopback-Ends off linktype h =
      let h' = next f (off + 4) (omega arith) h in
      let family = take 4 (drop off f) in
      let families : List ℕ =
        if linktype == 108
        then big_endian family ∷ []
        else big_endian family ∷ little_endian family ∷ [] in
      Ends-has f off 4 (Ends-done h) λ fits.
        Ends-if (member 2 families) (λ _. ipv4-Ends f descend 0 (off + 4) below h')
          λ _.
            Ends-if (any_member families (10 ∷ 24 ∷ 28 ∷ 30 ∷ []))
              (λ _. ipv6-Ends f descend 0 (off + 4) below h') λ _. Ends-done h'
