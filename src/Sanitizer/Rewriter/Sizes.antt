-- ===== src/Sanitizer/Rewriter/Sizes.antt =====
-- The sizes of the stand-ins that the rewriter puts in.
use pcap_server.Prelude.{
  ℕ, ◌≡◌, refl, Bool, true, false, ◌&&◌, ◌++◌, Option, none, some, Bytes, length, take, drop, arith,
  length-append, length-take, length-drop, length-be_bytes, be_bytes, big_endian, bytes_eq, ◌==◌,
  if◌then◌else◌, Text,
}
use pcap_server.Anonymize.{
  Primitives, map_address, in_ranges, ipv4_always_kept, ipv4_private, ipv6_always_kept,
  ipv6_private,
}
use pcap_server.Anonymize.Mapper.{
  MapperConfig, map_ipv4, map_ipv6_native, map_mac, ipv4_mapped_prefix,
}
use pcap_server.Anonymize.Mapper.Cache.{plain_ipv6}
use pcap_server.Anonymize.Mapper.Kinds.{map_mac_kinds}
use pcap_server.Framewalk.{Kind, mac, ipv4, ipv6}
use pcap_server.Framewalk.Invariant.{size_of}
use pcap_server.Sanitizer.Texts.{PythonTexts, hex_colons}
use pcap_server.Sanitizer.Names.{same_address, address_matches}

length-if :
    (n : ℕ) (b : Bool) (xs ys : Bytes)
    → length xs ≡ n
    → length ys ≡ n
    → length (if b then xs else ys) ≡ n
length-if n true xs ys hx hy = hx
length-if n false xs ys hx hy = hy

module _ (p : Primitives) (c : MapperConfig) where
  length-map_ipv4 : (raw : Bytes) → length raw ≡ 4 → length (map_ipv4 p c raw) ≡ 4
  unfolding map_ipv4
  length-map_ipv4 raw h =
      let value = big_endian raw in
      let new = map_address p c.prefixes value 32 in
      length-if 4 (in_ranges value 32 ipv4_always_kept) raw
        (if c.keep_private && in_ranges value 32 ipv4_private then raw else be_bytes 4 new) h
        (length-if 4 (c.keep_private && in_ranges value 32 ipv4_private) raw (be_bytes 4 new) h
          (length-be_bytes 4 new))

  length-map_ipv6_native : (raw : Bytes) → length raw ≡ 16 → length (map_ipv6_native p c raw) ≡ 16
  unfolding map_ipv6_native
  length-map_ipv6_native raw h =
      let value = big_endian raw in
      let new = map_address p c.prefixes value 128 in
      length-if 16 (in_ranges value 128 ipv6_always_kept) raw
        (if c.keep_private && in_ranges value 128 ipv6_private then raw else be_bytes 16 new) h
        (length-if 16 (c.keep_private && in_ranges value 128 ipv6_private) raw (be_bytes 16 new) h
          (length-be_bytes 16 new))

  length-plain_ipv6 : (raw : Bytes) → length raw ≡ 16 → length (plain_ipv6 p c raw) ≡ 16
  unfolding plain_ipv6
  length-plain_ipv6 raw h =
      let inner : length (map_ipv4 p c (drop 12 raw)) ≡ 4 =
        length-map_ipv4 (drop 12 raw) (omega (arith, h, length-drop 12 raw)) in
      length-if 16 (bytes_eq (take 12 raw) ipv4_mapped_prefix)
        (take 12 raw ++ map_ipv4 p c (drop 12 raw)) (map_ipv6_native p c raw)
        (omega (
          arith,
          inner,
          h,
          length-append (take 12 raw) (map_ipv4 p c (drop 12 raw)),
          length-take 12 raw,
        ))
        (length-map_ipv6_native raw h)

  -- The stand-in without caches.
  abbrev pub plain_for : Kind → Bytes → Bytes
  plain_for mac raw = map_mac p c raw
  plain_for ipv4 raw = map_ipv4 p c raw
  plain_for ipv6 raw = plain_ipv6 p c raw

  pub length-plain_for :
      (kind : Kind) (raw : Bytes)
      → length raw ≡ size_of kind
      → length (plain_for kind raw) ≡ size_of kind
  length-plain_for mac raw h = (map_mac_kinds p c raw h).0
  length-plain_for ipv4 raw h = length-map_ipv4 raw h
  length-plain_for ipv6 raw h = length-plain_ipv6 raw h

and_left : (a b : Bool) → a && b ≡ true → a ≡ true
and_left true b h = refl
and_left false b h = cc h

same_address_size :
    (n : ℕ) (original : Bytes) (o : Option Bytes)
    → same_address n original o ≡ true
    → length original ≡ n
unfolding same_address
same_address_size n original none h = cc h
same_address_size n original (some shown) h =
    ground (arith, and_left (length original == n) (bytes_eq original shown) h)

-- A field whose bytes match its address as shown has the size of an address.
pub address_matches_size :
    (py : PythonTexts) (kind : Kind) (original : Bytes) (shown : Text)
    → address_matches py kind original shown ≡ true
    → length original ≡ size_of kind
unfolding address_matches
address_matches_size py ipv4 original shown h = same_address_size 4 original (py.parse_ipv4 shown) h
address_matches_size py ipv6 original shown h =
    same_address_size 16 original (py.parse_ipv6 shown) h
address_matches_size py mac original shown h =
    ground
      (arith, and_left (length original == 6) (bytes_eq (hex_colons original) (py.lower shown)) h)
