-- ===== src/Framewalk/Transport/Sound.antt =====
-- The methods of backend/framewalk.py from `transport` up under the invariant of a layout.
use pcap_server.Prelude.{
  ℕ, ◌+◌, ◌*◌, ◌≤◌, refl, Bool, not, ◌&&◌, [], ◌∷◌, Bytes, ◌==◌, member, length, arith, bit_and,
}
use pcap_server.Framewalk.{
  ipv6, TransportName, Layout, Carried, ethernet_frame, ipv4_packet, ipv6_packet, ethertype_payload,
  Descend, has, header_end,
}
use pcap_server.Framewalk.Invariant.{
  IsPartial, Ends, Ends-done, Ends-if, Ends-byte_at, Ends-u16, Ends-has, IsPartial-if, IsSegment,
  DescendEnds,
}
use pcap_server.Framewalk.Invariant.Steps.{
  IsPartial-mono, IsPartial-set_transport, IsPartial-header_end, IsPartial-address, widen,
}
use pcap_server.Framewalk.Transport.{
  Pseudo, vxlan_port, geneve_port, eth_transparent_bridging, icmp_errors, icmpv6_errors,
  udp_payload, udp, icmp, icmpv6_message, icmpv6, gre_payload, gre_end, gre, transport,
}
use pcap_server.Framewalk.Transport.Leaves.{
  carry, add_segment, nd_options-Ends, tcp-Ends, bare, IsPartial-gre_scope, le-gre_end,
}

module _ (f : Bytes) (descend : Descend) (depth : ℕ) (below : DescendEnds f descend depth) where
  -- The call on what starts at `inner`, behind the header's end.
  descend-header_end :
      (c : Carried) (inner : ℕ) {a s : ℕ} {l : Layout}
      → (a ≤ inner) × (s ≤ inner)
      → IsPartial (length f) a s l
      → Ends (length f) (descend c inner (depth + 1) (header_end f inner l))
  descend-header_end c inner le h =
      below c inner _ (IsPartial-header_end f inner refl (IsPartial-mono le.0 le.1 h))

  udp_payload-Ends :
      (dport off s : ℕ) {l : Layout}
      → s ≤ off + 8
      → IsPartial (length f) off s l
      → Ends (length f) (udp_payload f descend dport off depth l)
  unfolding udp_payload
  udp_payload-Ends dport off s le h =
      Ends-if (dport == vxlan_port && has f (off + 8) 8)
        (λ p. Ends-byte_at f (off + 8) _ (ground arith) λ flags.
          Ends-if (not (bit_and flags 0x08 == 0))
            (λ _. descend-header_end ethernet_frame (off + 16) (omega arith) h) λ _. Ends-done h)
        λ _.
          Ends-if (dport == geneve_port && has f (off + 8) 8)
            (λ p. Ends-byte_at f (off + 8) _ (ground arith) λ options.
              let inner = off + 16 + bit_and options 0x3F * 4 in
              Ends-u16 f (off + 10) _ (ground arith) λ protocol.
                Ends-if (protocol == eth_transparent_bridging)
                  (λ _. descend-header_end ethernet_frame inner (omega arith) h)
                  λ _. descend-header_end (ethertype_payload protocol) inner (omega arith) h)
            λ _. Ends-done h

  udp-Ends :
      (off end s : ℕ) (pseudo : Pseudo) (over_ipv4 : Bool) {l : Layout}
      → IsSegment (length f) s off end pseudo
      → IsPartial (length f) off s l
      → Ends (length f) (udp f descend off end pseudo depth over_ipv4 l)
  unfolding udp
  udp-Ends off end s pseudo over_ipv4 g h = Ends-has f off 8 (Ends-done h) λ fits.
      Ends-u16 f (off + 6) _ (omega arith) λ checksum. Ends-u16 f off _ (omega arith) λ sport.
        Ends-u16 f (off + 2) _ (omega arith) λ dport.
          udp_payload-Ends dport off (off + 8) (omega arith) (
            IsPartial-set_transport _ _ _ (
              IsPartial-header_end f (off + 8) refl (
                IsPartial-if (not (over_ipv4 && checksum == 0))
                  (λ _. add_segment g (omega arith) (omega arith) h)
                  λ _. IsPartial-mono (omega arith) (omega (arith, g.off_after)) h)))

  icmp-Ends :
      (off end s : ℕ) {l : Layout}
      → (s ≤ off) × (end ≤ length f)
      → IsPartial (length f) off s l
      → Ends (length f) (icmp f descend off end depth l)
  unfolding icmp
  icmp-Ends off end s g h = Ends-has f off 8 (Ends-done h) λ fits.
      let h' = IsPartial-set_transport TransportName.icmp 0 0 (
        IsPartial-header_end f (off + 8) refl
          (add_segment {s' = off + 4} (bare g) (omega arith) (omega arith) h)) in
      Ends-byte_at f off _ (omega arith) λ kind.
        Ends-if (member kind icmp_errors)
          (λ _. below ipv4_packet (off + 8) _ (carry (omega arith) h')) λ _. Ends-done h'

  icmpv6_message-Ends :
      (kind off end s : ℕ) {l : Layout}
      → s ≤ off + 8
      → IsPartial (length f) off s l
      → Ends (length f) (icmpv6_message f descend kind off end depth l)
  unfolding icmpv6_message
  icmpv6_message-Ends kind off end s le h =
      let h₁ = IsPartial-address f (off + 8) ipv6 refl (omega arith) h in
      Ends-if (member kind icmpv6_errors)
        (λ _. below ipv6_packet (off + 8) _ (carry (omega arith) h))
        λ _.
          Ends-if (kind == 133) (λ _. nd_options-Ends f (off + 8) end s (widen (omega arith) h))
            λ _.
              Ends-if (kind == 134)
                (λ _. nd_options-Ends f (off + 16) end s (widen (omega arith) h))
                λ _.
                  Ends-if (member kind (135 ∷ 136 ∷ []))
                    (λ _. nd_options-Ends f (off + 24) end s (widen (omega arith) h₁))
                    λ _.
                      Ends-if (kind == 137)
                        (λ _. nd_options-Ends f (off + 40) end s (
                          widen (omega arith)
                            (IsPartial-address f (off + 24) ipv6 refl (omega arith) h₁)))
                        λ _. Ends-done h

  icmpv6-Ends :
      (off end s : ℕ) (pseudo : Pseudo) {l : Layout}
      → IsSegment (length f) s off end pseudo
      → IsPartial (length f) off s l
      → Ends (length f) (icmpv6 f descend off end pseudo depth l)
  unfolding icmpv6
  icmpv6-Ends off end s pseudo g h = Ends-has f off 8 (Ends-done h) λ fits.
      Ends-byte_at f off _ (omega arith) λ kind.
        icmpv6_message-Ends kind off end (off + 4) (omega arith) (
          IsPartial-set_transport TransportName.icmpv6 0 0
            (IsPartial-header_end f (off + 8) refl (add_segment g (omega arith) (omega arith) h)))

  gre_payload-Ends :
      (off cur : ℕ) {a s : ℕ} {l : Layout}
      → off + 4 ≤ length f
      → (a ≤ cur) × (s ≤ cur)
      → IsPartial (length f) a s l
      → Ends (length f) (gre_payload f descend off cur depth l)
  unfolding gre_payload
  gre_payload-Ends off cur fits le h = Ends-u16 f (off + 2) _ (omega arith) λ protocol.
      Ends-if (protocol == eth_transparent_bridging)
        (λ _. descend-header_end ethernet_frame cur le h)
        λ _. descend-header_end (ethertype_payload protocol) cur le h

  gre-Ends :
      (off end s : ℕ) {l : Layout}
      → (s ≤ off) × (end ≤ length f)
      → IsPartial (length f) off s l
      → Ends (length f) (gre f descend off end depth l)
  unfolding gre
  gre-Ends off end s g h = Ends-has f off 4 (Ends-done h) λ fits.
      Ends-u16 f off _ (omega arith) λ flags.
        Ends-if (not (bit_and flags 0x0007 == 0)) (λ _. Ends-done h)
          λ _.
            gre_payload-Ends off (gre_end off flags) fits (le-gre_end off flags, omega arith)
              (IsPartial-gre_scope f off end flags s _ g h)

  pub transport-Ends :
      (proto off end s : ℕ) (pseudo : Pseudo) (over_ipv4 : Bool) {l : Layout}
      → IsSegment (length f) s off end pseudo
      → IsPartial (length f) off s l
      → Ends (length f) (transport f descend proto off end pseudo depth over_ipv4 l)
  unfolding transport
  transport-Ends proto off end s pseudo over_ipv4 g h =
      Ends-if (proto == 6) (λ _. tcp-Ends f off end s pseudo g h)
        λ _.
          Ends-if (proto == 17) (λ _. udp-Ends off end s pseudo over_ipv4 g h)
            λ _.
              Ends-if (proto == 1) (λ _. icmp-Ends off end s (g.off_after, g.end_within) h)
                λ _.
                  Ends-if (proto == 58) (λ _. icmpv6-Ends off end s pseudo g h)
                    λ _.
                      Ends-if (proto == 4)
                        (λ _. below ipv4_packet off _ (carry (omega (arith, g.off_after)) h))
                        λ _.
                          Ends-if (proto == 41)
                            (λ _. below ipv6_packet off _ (carry (omega (arith, g.off_after)) h))
                            λ _.
                              Ends-if (proto == 47)
                                (λ _. gre-Ends off end s (g.off_after, g.end_within) h)
                                λ _. Ends-done h
