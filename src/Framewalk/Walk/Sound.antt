-- ===== src/Framewalk/Walk/Sound.antt =====
-- `walk` of backend/framewalk.py on the link types that it knows.
use pcap_server.Prelude.{
  ℕ, zero, suc, ◌+◌, ◌≤◌, ◌≡◌, refl, true, false, [], ◌∷◌, Bytes, ◌==◌, member, length, arith,
}
use pcap_server.Framewalk.{
  Outcome, done, unsupported_link_type, Layout, empty_layout, ethernet_frame, ipv4_packet,
  ipv6_packet, ethertype_payload, max_depth,
}
use pcap_server.Framewalk.Invariant.{
  IsLayout, IsPartial, Ends, finished, Ends-done, Ends-if, DescendEnds,
}
use pcap_server.Framewalk.Network.Sound.{ipv4-Ends, ipv6-Ends}
use pcap_server.Framewalk.Link.Sound.{
  raw_ip-Ends, ethertype-Ends, ethernet-Ends, sll-Ends, sll2-Ends, loopback-Ends,
}
use pcap_server.Framewalk.Walk.{linktypes, descend, levels, link, walk}

-- The fuel suffices: the depth grows by one with each use of it.
descend-Ends :
    (k : ℕ) (f : Bytes) (depth : ℕ)
    → max_depth + 2 ≤ depth + 1 + k
    → depth ≤ max_depth
    → DescendEnds f (descend k f) depth
unfolding descend
descend-Ends zero f depth room shallow c off l h = absurd (omega arith)
descend-Ends (suc k) f depth room shallow ethernet_frame off l h =
    ethernet-Ends f (descend k f) (depth + 1) (descend-Ends k f (depth + 1) (omega arith)) off h
descend-Ends (suc k) f depth room shallow ipv4_packet off l h =
    ipv4-Ends f (descend k f) (depth + 1) off (descend-Ends k f (depth + 1) (omega arith)) h
descend-Ends (suc k) f depth room shallow ipv6_packet off l h =
    ipv6-Ends f (descend k f) (depth + 1) off (descend-Ends k f (depth + 1) (omega arith)) h
descend-Ends (suc k) f depth room shallow (ethertype_payload etype) off l h =
    ethertype-Ends f (descend k f) (depth + 1) (descend-Ends k f (depth + 1) (omega arith)) etype
      off h

IsPartial-empty_layout : (n : ℕ) → IsPartial n 0 0 empty_layout
IsPartial-empty_layout n = record {
  layout = record {
    addresses_within = tt;
    addresses_apart = tt;
    scopes_within = tt;
    scopes_nested = tt;
    payload_within = omega arith;
  };
  addresses_by = tt;
  fields_by = tt;
}

link-Ends : (f : Bytes) (linktype : ℕ) → Ends (length f) (link f linktype empty_layout)
unfolding link
link-Ends f linktype =
    let h = IsPartial-empty_layout (length f) in
    let d = descend levels f in
    let below : 0 ≤ max_depth → DescendEnds f d 0 = descend-Ends levels f 0 (omega arith) in
    Ends-if (linktype == 1) (λ _. ethernet-Ends f d 0 below 0 h)
      λ _.
        Ends-if (linktype == 113) (λ _. sll-Ends f d below 0 h)
          λ _.
            Ends-if (linktype == 276) (λ _. sll2-Ends f d below 0 h)
              λ _.
                Ends-if (member linktype (12 ∷ 14 ∷ 101 ∷ [])) (λ _. raw_ip-Ends f d 0 below 0 h)
                  λ _.
                    Ends-if (member linktype (0 ∷ 108 ∷ []))
                      (λ _. loopback-Ends f d below 0 linktype h) λ _. Ends-done h

-- For every frame, of any bytes and any length, and each link type of LINKTYPE_NAMES, `walk`
-- returns a layout: no read is out of bounds and no loop or recursion runs on. In the layout each
-- address and each checksum field lies within the captured bytes, no two addresses overlap, the
-- covered bytes and the pseudo headers lie within the capture, each checksum field lies in front
-- of all that enters a later checksum, and `payload_start` is at most the captured length.
pub walk-IsLayout :
    (f : Bytes) (linktype : ℕ)
    → member linktype linktypes ≡ true
    → (l : Layout) × (walk f linktype ≡ done l) × IsLayout (length f) l
unfolding walk
walk-IsLayout f linktype known = rw known (found (link-Ends f linktype))
  where
    found :
        {o : Outcome Layout}
        → Ends (length f) o
        → (l : Layout) × (o ≡ done l) × IsLayout (length f) l
    found (finished {l} h) = (l, refl, h)

pub walk_unsupported :
    (f : Bytes) (linktype : ℕ)
    → member linktype linktypes ≡ false
    → walk f linktype ≡ unsupported_link_type linktype
unfolding walk
walk_unsupported f linktype unknown = rw unknown
