-- ===== src/Anonymize/Mapper.antt =====
-- backend/anonymize.py: AddressMapper, the stand-ins for one capture and their caches.
pub mod Cache
pub mod Kinds
use pcap_server.Prelude.{
  ℕ, suc, ◌≡◌, Bool, true, false, not, ◌&&◌, ◌||◌, ◌%◌, List, [], ◌∷◌, ◌++◌, Option, none, some,
  Bytes, ltb, ◌==◌, length, take, drop, be_bytes, big_endian, bytes_eq, bit_and, bit_or,
  if◌then◌else◌, Dict, lookup, store, get_or,
}
use pcap_server.Anonymize.{
  Primitives, PrefixMap, map_address, in_ranges, ipv4_always_kept, ipv4_private, ipv6_always_kept,
  ipv6_private, prefix_map,
}

-- b"\x00" * 10 + b"\xff\xff"
abbrev pub ipv4_mapped_prefix : Bytes
ipv4_mapped_prefix = 0 ∷ 0 ∷ 0 ∷ 0 ∷ 0 ∷ 0 ∷ 0 ∷ 0 ∷ 0 ∷ 0 ∷ 0xFF ∷ 0xFF ∷ []

unfoldable pub cache_limit : ℕ
cache_limit = 200_000

-- What the constructor of AddressMapper fixes.
pub record MapperConfig : Type 0 where
  pub prefixes : PrefixMap
  pub hash_key : Bytes
  pub keep_private : Bool
  pub keep_oui : Bool

pub record AddressMapper : Type 0 where
  pub config : MapperConfig
  pub ipv4_cache : Dict Bytes
  pub ipv6_cache : Dict Bytes
  pub mac_cache : Dict Bytes

-- `AddressMapper(key, ...)`; `none` is the ValueError of a key that has not 64 bytes.
unfoldable pub address_mapper : Primitives → Bytes → Bool → Bool → Option AddressMapper
address_mapper p key keep_private keep_oui =
    if not (length key == 64) then none else elim (prefix_map p (take 32 key)) [
      | none ↦ none
      | some prefixes ↦ some (record {
        config = record {
          prefixes = prefixes;
          hash_key = drop 32 key;
          keep_private = keep_private;
          keep_oui = keep_oui;
        };
        ipv4_cache = [];
        ipv6_cache = [];
        mac_cache = [];
      })
    ]

unfoldable pub remember : Dict Bytes → Bytes → Bytes → Dict Bytes
remember cache raw stand_in =
    if ltb (length cache) cache_limit then store cache raw stand_in else cache

-- One entry of `counts`: the values of a cache that are not their own stand-ins.
unfoldable pub count_replaced : Dict Bytes → ℕ
count_replaced [] = 0
count_replaced ((raw, stand_in) ∷ rest) =
    let later = count_replaced rest in if bytes_eq raw stand_in then later else suc later

module _ (p : Primitives) where
  unfoldable pub map_ipv4 : MapperConfig → Bytes → Bytes
  map_ipv4 c raw =
      let value = big_endian raw in
      if in_ranges value 32 ipv4_always_kept
      then raw
      else if c.keep_private && in_ranges value 32 ipv4_private
      then raw
      else be_bytes 4 (map_address p c.prefixes value 32)

  unfoldable pub mapper_ipv4 : AddressMapper → Bytes → Bytes × AddressMapper
  mapper_ipv4 s raw = elim (lookup s.ipv4_cache raw) [
    | some cached ↦ (cached, s)
    | none ↦
        let stand_in = map_ipv4 s.config raw in
        (stand_in, record s { ipv4_cache = remember s.ipv4_cache raw stand_in })
  ]

  -- An address that is not IPv4 in IPv6's clothing.
  unfoldable pub map_ipv6_native : MapperConfig → Bytes → Bytes
  map_ipv6_native c raw =
      let value = big_endian raw in
      if in_ranges value 128 ipv6_always_kept
      then raw
      else if c.keep_private && in_ranges value 128 ipv6_private
      then raw
      else be_bytes 16 (map_address p c.prefixes value 128)

  unfoldable pub map_ipv6 : AddressMapper → Bytes → Bytes × AddressMapper
  map_ipv6 s raw =
      if bytes_eq (take 12 raw) ipv4_mapped_prefix
      then (let answer = mapper_ipv4 s (drop 12 raw) in (take 12 raw ++ answer.0, answer.1))
      else (map_ipv6_native s.config raw, s)

  unfoldable pub mapper_ipv6 : AddressMapper → Bytes → Bytes × AddressMapper
  mapper_ipv6 s raw = elim (lookup s.ipv6_cache raw) [
    | some cached ↦ (cached, s)
    | none ↦
        let answer = map_ipv6 s raw in
        (answer.0, record answer.1 { ipv6_cache = remember answer.1.ipv6_cache raw answer.0 })
  ]

  -- The IndexError on an empty address is left out: the callers pass six bytes.
  unfoldable pub map_mac : MapperConfig → Bytes → Bytes
  map_mac c raw =
      let digest = p.hmac c.hash_key (0x6D ∷ 0x61 ∷ 0x63 ∷ 0x00 ∷ raw) in
      if not (bit_and (get_or raw 0 0) 0x01 == 0) || bytes_eq raw (0 ∷ 0 ∷ 0 ∷ 0 ∷ 0 ∷ 0 ∷ [])
      then raw
      else if c.keep_oui
      then take 3 raw ++ take 3 digest
      else bit_or (bit_and (get_or digest 0 0) 0xFC) 0x02 ∷ take 5 (drop 1 digest)

  unfoldable pub mapper_mac : AddressMapper → Bytes → Bytes × AddressMapper
  mapper_mac s raw = elim (lookup s.mac_cache raw) [
    | some cached ↦ (cached, s)
    | none ↦
        let stand_in = map_mac s.config raw in
        (stand_in, record s { mac_cache = remember s.mac_cache raw stand_in })
  ]
