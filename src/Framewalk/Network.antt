-- ===== src/Framewalk/Network.antt =====
-- backend/framewalk.py: the network layer, `arp`, `ipv4` and `ipv6`.
pub mod Sound
use pcap_server.Prelude.{
  ℕ, zero, suc, ◌+◌, ◌*◌, min, Bool, true, false, not, ◌||◌, List, [], ◌∷◌, Bytes, leb, ltb, ◌==◌,
  member, length, shr, bit_and, if◌then◌else◌,
}
use pcap_server.Framewalk.{
  Outcome, done, out_of_fuel, ◌>>=◌, Kind, Scope, Layout, Descend, max_depth, has, byte_at, u16,
  address, header_end, add_scope,
}
use pcap_server.Framewalk.Transport.{Pseudo, transport}

abbrev pub eth_ipv4 : ℕ
eth_ipv4 = 0x0800

abbrev pub ipv6_extensions : List ℕ
ipv6_extensions = 0 ∷ 43 ∷ 44 ∷ 51 ∷ 60 ∷ []

-- The four addresses of an ARP packet for IPv4 over Ethernet.
unfoldable pub arp_addresses : Bytes → ℕ → Layout → Layout
arp_addresses f off l = address f (off + 24) 4 Kind.ipv4 (
    address f (off + 18) 6 Kind.mac
      (address f (off + 14) 4 Kind.ipv4 (address f (off + 8) 6 Kind.mac l)))

unfoldable pub arp : Bytes → ℕ → Layout → Outcome Layout
arp f off l = if not (has f off 8) then done l else do
  hlen ← byte_at f (off + 4)
  plen ← byte_at f (off + 5)
  let l₁ = header_end f (off + 8 + 2 * (hlen + plen)) l
  protocol ← u16 f (off + 2)
  if not (hlen == 6) || not (plen == 4) || not (protocol == eth_ipv4)
      then done l₁
      else done (arp_addresses f off l₁)

module _ (f : Bytes) (descend : Descend) where
  -- `ipv4` once the header's length is known.
  unfoldable pub ipv4_body : ℕ → ℕ → ℕ → Layout → Outcome Layout
  ipv4_body ihl off depth l = do
    total ← u16 f (off + 2)
    let end = if leb ihl total then min (off + total) (length f) else length f
    let l₁ = address f (off + 16) 4 Kind.ipv4 (address f (off + 12) 4 Kind.ipv4 l)
    let s : Scope = record { checksum_at = off + 10; start = off; end = off + ihl; pseudo = [] }
    let l₂ = if has f off ihl then add_scope s l₁ else l₁
    let l₃ = header_end f (off + ihl) l₂
    fragment ← u16 f (off + 6)
    let pseudo : Pseudo = (off + 12, 4) ∷ (off + 16, 4) ∷ []
    if not (bit_and fragment 0x1FFF == 0) then done l₃ else do
      proto ← byte_at f (off + 9)
      transport f descend proto (off + ihl) end pseudo depth true l₃

  unfoldable pub ipv4 : ℕ → ℕ → Layout → Outcome Layout
  ipv4 off depth l = if ltb max_depth depth || not (has f off 20) then done l else do
    b ← byte_at f off
    let ihl = bit_and b 0x0F * 4
    if not (shr b 4 == 4) then done l else if ltb ihl 20 then done l else ipv4_body ihl off depth l

  -- The extension loop of `ipv6`, and the transport after it; the first argument is the fuel.
  unfoldable pub ipv6_headers : ℕ → ℕ → ℕ → ℕ → Pseudo → ℕ → Layout → Outcome Layout
  ipv6_headers zero next_header cur end pseudo depth l = out_of_fuel
  ipv6_headers (suc k) next_header cur end pseudo depth l =
      if member next_header ipv6_extensions
      then (if next_header == 44
          then (if not (has f cur 8) then done l else do
            word ← u16 f (cur + 2)
            next ← byte_at f cur
            let l₁ = header_end f (cur + 8) l
            let more = ipv6_headers k next (cur + 8) end pseudo depth l₁
            if not (shr word 3 == 0) then done l₁ else more)
          else (if not (has f cur 2) then done l else do
            units ← byte_at f (cur + 1)
            let len = if next_header == 51 then (units + 2) * 4 else (units + 1) * 8
            next ← byte_at f cur
            ipv6_headers k next (cur + len) end pseudo depth (header_end f (cur + len) l)))
      else transport f descend next_header cur end pseudo depth false l

  -- `ipv6` once the version is known.
  unfoldable pub ipv6_body : ℕ → ℕ → Layout → Outcome Layout
  ipv6_body off depth l = do
    payload ← u16 f (off + 4)
    let end = if not (payload == 0) then min (off + 40 + payload) (length f) else length f
    let l₁ = address f (off + 24) 16 Kind.ipv6 (address f (off + 8) 16 Kind.ipv6 l)
    next_header ← byte_at f (off + 6)
    let pseudo : Pseudo = (off + 8, 16) ∷ (off + 24, 16) ∷ []
    ipv6_headers (suc (length f)) next_header (off + 40) end pseudo depth
        (header_end f (off + 40) l₁)

  unfoldable pub ipv6 : ℕ → ℕ → Layout → Outcome Layout
  ipv6 off depth l =
      if ltb max_depth depth || not (has f off 40)
      then done l
      else do b ← byte_at f off; if not (shr b 4 == 6) then done l else ipv6_body off depth l
