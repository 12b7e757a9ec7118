-- ===== src/Sanitizer/Names.antt =====
-- backend/sanitizer.py: `_pseudonym`, `_hostname`, `_netbios` and `_address_matches`.
use mathlib.Core.List.{reverse}
use pcap_server.Prelude.{
  ℕ, ◌+◌, ◌-◌, ◌*◌, ◌/◌, ◌%◌, Bool, true, false, not, ◌&&◌, ◌||◌, [], ◌∷◌, ◌++◌, Option, none, some,
  Bytes, ltb, leb, ◌==◌, length, take, drop, slice, get_or, bytes_eq, if◌then◌else◌, Text, map,
}
use pcap_server.Anonymize.{Primitives}
use pcap_server.Anonymize.Names.{Pseudonyms, text, label, hostname, lower_ascii}
use pcap_server.Framewalk.{Kind, mac, ipv4, ipv6}
use pcap_server.Sanitizer.Texts.{
  codes, PythonTexts, utf_8, utf_16_le, fill_with, hex, hex_colons, two_bytes_le,
}
use pcap_server.Sanitizer.Fields.{Json, text_of}
use pcap_server.Sanitizer.Masks.{
  find_value, both_encodings, utf_8_only, mask_secret, map_dns_labels,
}

-- `bytes(ord(c) if ord(c) < 0x80 else 0x78 for c in text)`
abbrev ascii_template : Text → Bytes
ascii_template value = map (λ c. if ltb c 0x80 then c else 0x78) value

-- `.decode("ascii").encode("utf-16-le")` on ASCII bytes.
unfoldable pub ascii_utf16 : Bytes → Bytes
ascii_utf16 [] = []
ascii_utf16 (b ∷ bs) = two_bytes_le b ++ ascii_utf16 bs

-- b"user"
abbrev user_kind : Bytes
user_kind = codes "user"

-- `value if isinstance(value, str) else segment.hex()`
unfoldable pub shown_text : Option Text → Bytes → Text
shown_text (some shown) segment = shown
shown_text none segment = hex segment

-- b" " on the right of a name, up to 15 bytes: `xs[:15].ljust(15, b" ")`.
unfoldable pub pad_15 : Bytes → Bytes
pad_15 xs = take 15 xs ++ fill_with (15 - length xs) 0x20

-- `xs.rstrip(b" ")`, from the reversed bytes.
unfoldable pub drop_spaces : Bytes → Bytes
drop_spaces [] = []
drop_spaces (x ∷ xs) = if x == 0x20 then drop_spaces xs else x ∷ xs

abbrev pub upper_ascii : ℕ → ℕ
upper_ascii b = if leb 0x61 b && leb b 0x7A then b - 0x20 else b

-- `chr(b).isalnum()` for a byte.
unfoldable pub is_alnum : ℕ → Bool
is_alnum b =
    leb 0x30 b && leb b 0x39
    || leb 0x41 b && leb b 0x5A
    || leb 0x61 b && leb b 0x7A
    || b == 0xAA
    || b == 0xB2
    || b == 0xB3
    || b == 0xB5
    || b == 0xB9
    || b == 0xBA
    || leb 0xBC b && leb b 0xBE
    || leb 0xC0 b && leb b 0xFF && not (b == 0xD7) && not (b == 0xF7)

-- Two letters "A" to "P" as a byte, and back.
unfoldable pub decode_pairs : Bytes → Bytes
decode_pairs [] = []
decode_pairs (x ∷ []) = []
decode_pairs (x ∷ y ∷ rest) = ((x - 0x41) * 16 + (y - 0x41)) ∷ decode_pairs rest

unfoldable pub encode_pairs : Bytes → Bytes
encode_pairs [] = []
encode_pairs (b ∷ bs) = (0x41 + b / 16) ∷ (0x41 + b % 16) ∷ encode_pairs bs

unfoldable pub all_letters : Bytes → Bool
all_letters [] = true
all_letters (b ∷ bs) = let later = all_letters bs in leb 0x41 b && leb b 0x50 && later

module _ (p : Primitives) where
  unfoldable pub pseudonym : Pseudonyms → Bytes → Json → Bytes
  pseudonym names segment value =
      let shown = shown_text (text_of value) segment in
      elim (find_value segment value both_encodings) [
        | none ↦ text p names.hash_key user_kind shown segment
        | some (first, last, utf_16_le) ↦
            let stand_in =
              ascii_utf16 (text p names.hash_key user_kind shown (ascii_template shown)) in
            if not (length stand_in == last - first)
            then mask_secret segment value false
            else take first segment ++ stand_in ++ drop last segment
        | some (first, last, utf_8) ↦
            take first segment
            ++ text p names.hash_key user_kind shown (slice segment first last)
            ++ drop last segment
      ]

  unfoldable pub field_hostname : Pseudonyms → Bytes → Json → Option Bytes × Pseudonyms
  field_hostname names segment value = elim (find_value segment value utf_8_only) [
    | none ↦ map_dns_labels p segment names
    | some (first, last, encoding) ↦
        let mapped = hostname p names (slice segment first last) in
        (some (take first segment ++ mapped.0 ++ drop last segment), mapped.1)
  ]

  -- The part of `_netbios` behind the decoding: the name without its blanks, and the suffix.
  unfoldable pub netbios_name : Pseudonyms → Bytes → Bytes → ℕ → Bytes × Pseudonyms
  netbios_name names segment name suffix =
      let mapped = label p names (map lower_ascii name) in
      if length name == 0 || not (is_alnum (get_or name 0 0)) then (segment, names) else (
        take 1 segment
            ++ encode_pairs (pad_15 (map upper_ascii mapped.0) ++ suffix ∷ [])
            ++ drop 33 segment,
        mapped.1,
      )

  unfoldable pub netbios : Pseudonyms → Bytes → Option Bytes × Pseudonyms
  netbios names segment =
      let encoded = slice segment 1 33 in
      let decoded = decode_pairs encoded in
      let name = reverse (drop_spaces (reverse (take 15 decoded))) in
      let answer = netbios_name names segment name (get_or decoded 15 0) in
      if ltb (length segment) 33 || not (get_or segment 0 0 == 32)
      then (none, names)
      else if not (all_letters encoded)
      then (none, names)
      else (some answer.0, answer.1)

unfoldable pub same_address : ℕ → Bytes → Option Bytes → Bool
same_address size original none = false
same_address size original (some shown) = length original == size && bytes_eq original shown

unfoldable pub address_matches : PythonTexts → Kind → Bytes → Text → Bool
address_matches py ipv4 original shown = same_address 4 original (py.parse_ipv4 shown)
address_matches py ipv6 original shown = same_address 16 original (py.parse_ipv6 shown)
address_matches py mac original shown =
    length original == 6 && bytes_eq (hex_colons original) (py.lower shown)
