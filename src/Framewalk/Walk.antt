-- ===== src/Framewalk/Walk.antt =====
-- backend/framewalk.py: `walk`, `link`, and the recursion of the walker on depth.
pub mod Sound
pub mod Examples
use pcap_server.Prelude.{
  ℕ, zero, suc, ◌+◌, Bool, not, List, [], ◌∷◌, Bytes, ◌==◌, member, if◌then◌else◌,
}
use pcap_server.Framewalk.{
  Outcome, done, unsupported_link_type, out_of_fuel, Layout, empty_layout, Carried, ethernet_frame,
  ipv4_packet, ipv6_packet, ethertype_payload, Descend, max_depth,
}
use pcap_server.Framewalk.Network.{ipv4, ipv6}
use pcap_server.Framewalk.Link.{ethernet, ethertype, sll, sll2, raw_ip, loopback}

-- The keys of LINKTYPE_NAMES.
abbrev pub linktypes : List ℕ
linktypes = 0 ∷ 1 ∷ 12 ∷ 14 ∷ 101 ∷ 108 ∷ 113 ∷ 276 ∷ []

-- The methods that are called one level deeper. The first argument is the fuel.
unfoldable pub descend : ℕ → Bytes → Descend
descend zero f carried off depth l = out_of_fuel
descend (suc k) f ethernet_frame off depth l = ethernet f (descend k f) off depth l
descend (suc k) f ipv4_packet off depth l = ipv4 f (descend k f) off depth l
descend (suc k) f ipv6_packet off depth l = ipv6 f (descend k f) off depth l
descend (suc k) f (ethertype_payload etype) off depth l =
    ethertype f (descend k f) etype off depth l

-- Levels 1 to `max_depth + 1` below the outermost headers.
abbrev pub levels : ℕ
levels = suc max_depth

unfoldable pub link : Bytes → ℕ → Layout → Outcome Layout
link f linktype l =
    if linktype == 1
    then ethernet f (descend levels f) 0 0 l
    else if linktype == 113
    then sll f (descend levels f) 0 l
    else if linktype == 276
    then sll2 f (descend levels f) 0 l
    else if member linktype (12 ∷ 14 ∷ 101 ∷ [])
    then raw_ip f (descend levels f) 0 0 l
    else if member linktype (0 ∷ 108 ∷ [])
    then loopback f (descend levels f) 0 linktype l
    else done l

unfoldable pub walk : Bytes → ℕ → Outcome Layout
walk f linktype =
    if not (member linktype linktypes)
    then unsupported_link_type linktype
    else link f linktype empty_layout
