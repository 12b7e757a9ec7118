-- ===== src/Framewalk/Network/Sound.antt =====
-- The methods `arp`, `ipv4` and `ipv6` of backend/framewalk.py under the invariant of a layout.
use pcap_server.Prelude.{
  ℕ, zero, suc, ◌+◌, ◌*◌, ◌≤◌, ◌<◌, refl, true, false, not, ◌||◌, [], Bytes, ltb, ◌==◌, member,
  length, shr, bit_and, arith, if◌then◌else◌, All-map,
}
use pcap_server.Framewalk.{
  mac, ipv4 as ipv4_kind, ipv6 as ipv6_kind, Layout, Descend, max_depth, has,
}
use pcap_server.Framewalk.Invariant.{
  IsPartial, Ends, Ends-done, Ends-if, Ends-byte_at, Ends-u16, Ends-has, Ends-guard, IsPartial-if,
  IsSegment, DescendEnds,
}
use pcap_server.Framewalk.Invariant.Steps.{
  IsPartial-mono, IsPartial-add_scope, IsPartial-header_end, IsPartial-address, widen,
}
use pcap_server.Framewalk.Transport.{Pseudo}
use pcap_server.Framewalk.Transport.Sound.{transport-Ends}
use pcap_server.Framewalk.Network.{
  eth_ipv4, ipv6_extensions, arp_addresses, arp, ipv4_body, ipv4, ipv6_headers, ipv6_body, ipv6,
}

-- A segment that starts further on.
later :
    {n s off off' end : ℕ} (pseudo : Pseudo)
    → off ≤ off'
    → IsSegment n s off end pseudo
    → IsSegment n s off' end pseudo
later pseudo le g = record {
  off_after = omega (arith, g.off_after);
  end_within = g.end_within;
  pseudo_from = g.pseudo_from;
  pseudo_before = All-map _ _ pseudo (λ p h. omega arith) g.pseudo_before;
}

pub arp-Ends :
    (f : Bytes) (off s : ℕ) {l : Layout}
    → IsPartial (length f) off s l
    → Ends (length f) (arp f off l)
unfolding arp arp_addresses
arp-Ends f off s h = Ends-has f off 8 (Ends-done h) λ fits.
    Ends-byte_at f (off + 4) _ (omega arith) λ hlen.
      Ends-byte_at f (off + 5) _ (omega arith) λ plen.
        Ends-u16 f (off + 2) _ (omega arith) λ protocol.
          let h' = IsPartial-header_end f (off + 8 + 2 * (hlen + plen)) refl h in
          Ends-if (not (hlen == 6) || not (plen == 4) || not (protocol == eth_ipv4))
            (λ _. Ends-done h')
            λ _. Ends-done (
              IsPartial-address f (off + 24) ipv4_kind refl (omega arith) (
                IsPartial-address f (off + 18) mac refl (omega arith) (
                  IsPartial-address f (off + 14) ipv4_kind refl (omega arith)
                    (IsPartial-address f (off + 8) mac refl (omega arith) h'))))

module _ (f : Bytes) (descend : Descend) (depth : ℕ) where
  ipv4_body-Ends :
      (ihl off : ℕ) {l : Layout}
      → DescendEnds f descend depth
      → 20 ≤ ihl
      → off + 20 ≤ length f
      → IsPartial (length f) off off l
      → Ends (length f) (ipv4_body f descend ihl off depth l)
  unfolding ipv4_body
  ipv4_body-Ends ihl off {l} below long fits h =
      let h₁ =
        IsPartial-address f (off + 16) ipv4_kind refl (omega arith)
          (IsPartial-address f (off + 12) ipv4_kind refl (omega arith) h) in
      let h₂ =
        IsPartial-if (has f off ihl)
          (λ p.
            IsPartial-add_scope {s' = off + 12}
              (record { checksum_at = off + 10; start = off; end = off + ihl; pseudo = [] })
              (ground arith) (omega arith) tt (omega arith) (omega arith) h₁)
          (λ _. IsPartial-mono (omega arith) (omega arith) h₁) in
      let h₃ = IsPartial-header_end f (off + ihl) refl h₂ in
      Ends-u16 f (off + 2) _ (omega arith) λ total. Ends-u16 f (off + 6) _ (omega arith) λ fragment.
        Ends-if (not (bit_and fragment 0x1FFF == 0)) (λ _. Ends-done h₃)
          λ _. Ends-byte_at f (off + 9) _ (omega arith) λ proto.
            transport-Ends f descend depth below proto (off + ihl) _ (off + 12) _ true
              (ground arith) (widen (omega arith) h₃)

  pub ipv4-Ends :
      (off : ℕ) {l : Layout}
      → (depth ≤ max_depth → DescendEnds f descend depth)
      → IsPartial (length f) off off l
      → Ends (length f) (ipv4 f descend off depth l)
  unfolding ipv4
  ipv4-Ends off below h = Ends-guard f depth off 20 (Ends-done h) λ shallow fits.
      Ends-byte_at f off _ (omega arith) λ b.
        Ends-if (not (shr b 4 == 4)) (λ _. Ends-done h)
          λ _.
            Ends-if (ltb (bit_and b 0x0F * 4) 20) (λ _. Ends-done h)
              λ p. ipv4_body-Ends (bit_and b 0x0F * 4) off (below shallow) (ground arith) fits h

  ipv6_headers-Ends :
      (k next_header cur end s : ℕ) (pseudo : Pseudo) (l : Layout)
      → DescendEnds f descend depth
      → 0 < k
      → length f < cur + k
      → IsSegment (length f) s cur end pseudo
      → IsPartial (length f) cur s l
      → Ends (length f) (ipv6_headers f descend k next_header cur end pseudo depth l)
  unfolding ipv6_headers
  ipv6_headers-Ends zero nh cur end s pseudo l below pos room g h = absurd (omega arith)
  ipv6_headers-Ends (suc k) nh cur end s pseudo l below pos room g h =
      Ends-if (member nh ipv6_extensions)
        (λ _.
          Ends-if (nh == 44)
            (λ _. Ends-has f cur 8 (Ends-done h) λ fits.
              Ends-u16 f (cur + 2) _ (omega arith) λ word.
                Ends-byte_at f cur _ (omega arith) λ next.
                  let h' = IsPartial-header_end f (cur + 8) refl (widen (omega arith) h) in
                  Ends-if (not (shr word 3 == 0)) (λ _. Ends-done h')
                    λ _.
                      ipv6_headers-Ends k next (cur + 8) end s pseudo _ below (omega arith)
                        (omega arith) (later pseudo (omega arith) g) h')
            λ _. Ends-has f cur 2 (Ends-done h) λ fits.
              Ends-byte_at f (cur + 1) _ (omega arith) λ units.
                Ends-byte_at f cur _ (omega arith) λ next.
                  let len = if nh == 51 then (units + 2) * 4 else (units + 1) * 8 in
                  let long : 8 ≤ len = ground arith in
                  ipv6_headers-Ends k next (cur + len) end s pseudo _ below (omega arith)
                    (omega arith) (later pseudo (omega arith) g)
                    (IsPartial-header_end f (cur + len) refl (widen (omega arith) h)))
        λ _. transport-Ends f descend depth below nh cur end s pseudo false g h

  ipv6_body-Ends :
      (off : ℕ) {l : Layout}
      → DescendEnds f descend depth
      → off + 40 ≤ length f
      → IsPartial (length f) off off l
      → Ends (length f) (ipv6_body f descend off depth l)
  unfolding ipv6_body
  ipv6_body-Ends off below fits h = Ends-u16 f (off + 4) _ (omega arith) λ payload.
      Ends-byte_at f (off + 6) _ (omega arith) λ nh.
        ipv6_headers-Ends (suc (length f)) nh (off + 40) _ off _ _ below (omega arith) (omega arith)
          (ground arith)
          (IsPartial-header_end f (off + 40) refl (
            widen (omega arith) (
              IsPartial-address f (off + 24) ipv6_kind refl (omega arith)
                (IsPartial-address f (off + 8) ipv6_kind refl (omega arith) h))))

  pub ipv6-Ends :
      (off : ℕ) {l : Layout}
      → (depth ≤ max_depth → DescendEnds f descend depth)
      → IsPartial (length f) off off l
      → Ends (length f) (ipv6 f descend off depth l)
  unfolding ipv6
  ipv6-Ends off below h = Ends-guard f depth off 40 (Ends-done h) λ shallow fits.
      Ends-byte_at f off _ (omega arith) λ b.
        Ends-if (not (shr b 4 == 6)) (λ _. Ends-done h)
          λ _. ipv6_body-Ends off (below shallow) fits h
