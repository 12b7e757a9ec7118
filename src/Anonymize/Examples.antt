-- ===== src/Anonymize/Examples.antt =====
-- Concrete primitives that meet the laws, with no secrecy, and the theorems of the stand-ins there.
use mathlib.Core.List.{map-append}
use pcap_server.Prelude.{
  ℕ, ◌+◌, ◌*◌, ◌%◌, ◌≡◌, ◌↔◌, ◌⊎◌, refl, true, false, List, [], ◌∷◌, ◌++◌, Bytes, IsBytes, length,
  map, take, get_or, be_bytes, length-be_bytes, IsBytes-be_bytes, big_endian, from_bytes_on,
  bytes_eq, arith, suc, ap, ◌∙◌, sym,
}
use pcap_server.Anonymize.{Primitives, PrefixMap, map_address, in_ranges}
use pcap_server.Anonymize.Prefix.{prefix, prefix-map_address_iff}
use pcap_server.Anonymize.Mapper.{MapperConfig, map_ipv4, map_mac}
use pcap_server.Anonymize.Mapper.Cache.{
  Address, ipv4, ipv6, mac, ask, ask_all, fresh_mapper, plain, ask-ask_all,
}
use pcap_server.Anonymize.Mapper.Kinds.{
  keeps_ipv4, prefix-map_ipv4_iff, map_mac_kinds, is_group_or_zero,
}
use pcap_server.Anonymize.Names.{
  Pseudonyms, label, hostname, text, lower_latin1, structural_labels, member_text,
}
use pcap_server.Anonymize.Names.Shape.{SameShape, SameShape-text}
use pcap_server.Anonymize.Names.Labels.{
  IsLabelled, IsLabelled-fresh, Labels, plain_label, label_same, label-Labels,
}
use pcap_server.Anonymize.Names.Hosts.{hostname-last}

abbrev pub scramble : ℕ → ℕ
scramble b = (b * 5 + 131) % 256

pub length-scramble : (xs : Bytes) → length (map scramble xs) ≡ length xs
length-scramble [] = refl
length-scramble (x ∷ xs) = ap suc (length-scramble xs)

pub scramble-IsBytes : (xs : Bytes) → IsBytes (map scramble xs)
scramble-IsBytes [] = tt
scramble-IsBytes (x ∷ xs) = (omega arith, scramble-IsBytes xs)

abbrev pub toy_primitives : Primitives
toy_primitives = record {
  aes = λ key blocks. map scramble blocks;
  aes-append = λ key block rest h. map-append scramble block rest;
  length-aes = λ key block h. length-scramble block ∙ h;
  aes-IsBytes = λ key blocks. scramble-IsBytes blocks;
  hmac = λ key message. be_bytes 32 (from_bytes_on 7 message * 1_000_003);
  length-hmac = λ key message. length-be_bytes 32 (from_bytes_on 7 message * 1_000_003);
  hmac-IsBytes = λ key message. IsBytes-be_bytes 32 (from_bytes_on 7 message * 1_000_003);
  derive_subkey = λ secret info len. be_bytes len (from_bytes_on 7 (secret ++ info));
  length-derive_subkey = λ secret info len. length-be_bytes len (from_bytes_on 7 (secret ++ info));
  lower_utf8 = λ value. value;
}

abbrev pub small_map : PrefixMap
small_map = record { aes_key = 1 ∷ 2 ∷ 3 ∷ []; pad = 0x1234_5678_9ABC }

abbrev pub small_config : MapperConfig
small_config = record {
  prefixes = small_map;
  hash_key = 7 ∷ [];
  keep_private = false;
  keep_oui = false;
}

-- 8.8.8.8 and 8.8.4.4, which share their first 20 bits.
abbrev resolver : Bytes
resolver = 8 ∷ 8 ∷ 8 ∷ 8 ∷ []

abbrev second_resolver : Bytes
second_resolver = 8 ∷ 8 ∷ 4 ∷ 4 ∷ []

prefix-map_address_iff_example : (prefix 32 20 0x0808_0808 ≡ prefix 32 20 0x0808_0404) ↔ (
    prefix 32 20 (map_address toy_primitives small_map 0x0808_0808 32)
    ≡ prefix 32 20 (map_address toy_primitives small_map 0x0808_0404 32))
prefix-map_address_iff_example =
    prefix-map_address_iff toy_primitives small_map 32 (omega arith) 0x0808_0808 0x0808_0404 20
      (omega arith) (omega arith) (omega arith)

keeps-resolver : keeps_ipv4 toy_primitives small_config resolver ≡ false
unfolding in_ranges from_bytes_on
keeps-resolver = refl

keeps-second_resolver : keeps_ipv4 toy_primitives small_config second_resolver ≡ false
unfolding in_ranges from_bytes_on
keeps-second_resolver = refl

prefix-map_ipv4_iff_example :
    (prefix 32 20 (big_endian resolver) ≡ prefix 32 20 (big_endian second_resolver)) ↔ (
      prefix 32 20 (big_endian (map_ipv4 toy_primitives small_config resolver))
      ≡ prefix 32 20 (big_endian (map_ipv4 toy_primitives small_config second_resolver)))
prefix-map_ipv4_iff_example =
    prefix-map_ipv4_iff toy_primitives small_config resolver second_resolver 20 refl refl
      (omega arith) (omega arith) keeps-resolver keeps-second_resolver (omega arith)

-- Twice the same IPv4 address, once as IPv6.
abbrev asked : List Address
asked =
    ipv4 resolver
    ∷ ipv6 (0 ∷ 0 ∷ 0 ∷ 0 ∷ 0 ∷ 0 ∷ 0 ∷ 0 ∷ 0 ∷ 0 ∷ 0xFF ∷ 0xFF ∷ resolver)
    ∷ mac (2 ∷ 0 ∷ 0 ∷ 0 ∷ 0 ∷ 9 ∷ [])
    ∷ []

ask-ask_all_example :
    (ask toy_primitives
      (ask_all toy_primitives (fresh_mapper small_config) asked)
      (ipv4 resolver)).0
    ≡ plain toy_primitives small_config (ipv4 resolver)
ask-ask_all_example = ask-ask_all toy_primitives small_config asked (ipv4 resolver)

abbrev card : Bytes
card = 0x3C ∷ 0x52 ∷ 0x82 ∷ 1 ∷ 2 ∷ 3 ∷ []

map_mac_kinds_example :
    (length (map_mac toy_primitives small_config card) ≡ 6)
    × ((is_group_or_zero card ≡ true) × (map_mac toy_primitives small_config card ≡ card)
        ⊎ (is_group_or_zero card ≡ false)
          × ((small_config.keep_oui ≡ true)
                × (take 3 (map_mac toy_primitives small_config card) ≡ take 3 card)
              ⊎ (small_config.keep_oui ≡ false)
                × (get_or (map_mac toy_primitives small_config card) 0 0 % 4 ≡ 2)))
map_mac_kinds_example = map_mac_kinds toy_primitives small_config card refl

-- "Db-1", with an accented letter behind it.
abbrev server : Bytes
server = 0x44 ∷ 0x62 ∷ 0x2D ∷ 0x31 ∷ 0xC9 ∷ []

SameShape-text_example :
    (length (text toy_primitives (7 ∷ []) (0x75 ∷ []) server server) ≡ length server)
    × SameShape server (text toy_primitives (7 ∷ []) (0x75 ∷ []) server server)
SameShape-text_example = SameShape-text toy_primitives (7 ∷ []) (0x75 ∷ []) server server

-- "dB-1", with the small form of that letter.
abbrev server_again : Bytes
server_again = 0x64 ∷ 0x42 ∷ 0x2D ∷ 0x31 ∷ 0xE9 ∷ []

named-server : member_text (map lower_latin1 server) structural_labels ≡ false
unfolding bytes_eq
named-server = refl

abbrev no_names : Pseudonyms
no_names = record { hash_key = 7 ∷ []; labels = [] }

label_same_example :
    (label toy_primitives no_names server).0
    ≡ (label toy_primitives (label toy_primitives no_names server).1 server_again).0
label_same_example =
    label_same toy_primitives no_names (label toy_primitives no_names server).1 server server_again
      (IsLabelled-fresh toy_primitives (7 ∷ []))
      (label-Labels toy_primitives no_names server (IsLabelled-fresh toy_primitives (7 ∷ []))).1
      (sym
        (label-Labels toy_primitives no_names server (IsLabelled-fresh toy_primitives (7 ∷ []))).2)
      refl named-server

label-Labels_example :
    Labels toy_primitives no_names
      (plain_label toy_primitives (7 ∷ []) server)
      (label toy_primitives no_names server)
label-Labels_example =
    label-Labels toy_primitives no_names server (IsLabelled-fresh toy_primitives (7 ∷ []))

-- "lan"
abbrev lan : Bytes
lan = 0x6C ∷ 0x61 ∷ 0x6E ∷ []

hostname-last_example :
    ((front : Bytes) × (length front ≡ length server)
      × ((hostname toy_primitives no_names (server ++ 0x2E ∷ lan)).0 ≡ front ++ 0x2E ∷ lan))
    × IsLabelled toy_primitives (hostname toy_primitives no_names (server ++ 0x2E ∷ lan)).1
hostname-last_example =
    hostname-last toy_primitives no_names server lan (IsLabelled-fresh toy_primitives (7 ∷ [])) refl
