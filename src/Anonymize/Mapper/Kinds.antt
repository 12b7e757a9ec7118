-- ===== src/Anonymize/Mapper/Kinds.antt =====
-- What a stand-in of each kind looks like.
use pcap_server.Prelude.{
  ℕ, ◌*◌, ◌/◌, ◌%◌, ◌^◌, ◌≡◌, ◌↔◌, ◌⊎◌, inl, inr, ◌≤◌, ◌<◌, sym, ap, ◌∙◌, Bool, true, false, not,
  ◌&&◌, ◌||◌, [], ◌∷◌, ◌++◌, Bytes, IsBytes, ◌==◌, length, take, drop, get_or, be_bytes, big_endian,
  length-be_bytes, big_endian-be_bytes, from_bytes_on, bytes_eq, bit_and, bit_or, length-append,
  length-take, length-drop, Bool-cases, arith, bit_and_1, bit_and-mul_pow, shl-bit_or,
  take-append_le, take_all,
}
use pcap_server.Anonymize.{Primitives, map_address, in_ranges, ipv4_always_kept, ipv4_private}
use pcap_server.Anonymize.Prefix.{prefix, prefix-map_address_iff, map_address-lt}
use pcap_server.Anonymize.Mapper.{MapperConfig, map_ipv4, map_ipv6_native, map_mac}
use pcap_server.Anonymize.Mapper.Cache.{Address, ipv4, ipv6, mac, plain_ipv6}

-- `raw[0] & 1`, or all zero.
abbrev pub is_group_or_zero : Bytes → Bool
is_group_or_zero raw = get_or raw 0 0 % 2 == 1 || bytes_eq raw (0 ∷ 0 ∷ 0 ∷ 0 ∷ 0 ∷ 0 ∷ [])

big_endian-lt : (raw : Bytes) → length raw ≡ 4 → IsBytes raw → big_endian raw < 2 ^ 32
unfolding from_bytes_on
big_endian-lt [] h b = absurd (omega arith)
big_endian-lt (p ∷ []) h b = absurd (omega arith)
big_endian-lt (p ∷ q ∷ []) h b = absurd (omega arith)
big_endian-lt (p ∷ q ∷ r ∷ []) h b = absurd (omega arith)
big_endian-lt (p ∷ q ∷ r ∷ s ∷ []) h b = omega arith
big_endian-lt (p ∷ q ∷ r ∷ s ∷ t ∷ xs) h b = absurd (omega arith)

module _ (p : Primitives) (c : MapperConfig) where
  -- The ranges that the options keep as they are.
  abbrev pub keeps_ipv4 : Bytes → Bool
  keeps_ipv4 raw =
      in_ranges (big_endian raw) 32 ipv4_always_kept
      || c.keep_private && in_ranges (big_endian raw) 32 ipv4_private

  map_ipv4_replaced :
      (raw : Bytes)
      → keeps_ipv4 raw ≡ false
      → map_ipv4 p c raw ≡ be_bytes 4 (map_address p c.prefixes (big_endian raw) 32)
  unfolding map_ipv4
  map_ipv4_replaced raw h = ground arith

  big_endian-map_ipv4 :
      (raw : Bytes)
      → length raw ≡ 4
      → IsBytes raw
      → keeps_ipv4 raw ≡ false
      → big_endian (map_ipv4 p c raw) ≡ map_address p c.prefixes (big_endian raw) 32
  big_endian-map_ipv4 raw size bytes h =
      ap big_endian (map_ipv4_replaced raw h)
      ∙ big_endian-be_bytes (map_address p c.prefixes (big_endian raw) 32) (
          map_address-lt p c.prefixes 32 (omega arith) (big_endian raw)
            (big_endian-lt raw size bytes))

  -- Two IPv4 addresses that are not in a kept range share their first `n` bits just when their
  -- stand-ins do, for each `n` up to 32.
  pub prefix-map_ipv4_iff :
      (a b : Bytes) (n : ℕ)
      → length a ≡ 4
      → length b ≡ 4
      → IsBytes a
      → IsBytes b
      → keeps_ipv4 a ≡ false
      → keeps_ipv4 b ≡ false
      → n ≤ 32
      → (prefix 32 n (big_endian a) ≡ prefix 32 n (big_endian b))
        ↔ (prefix 32 n (big_endian (map_ipv4 p c a)) ≡ prefix 32 n (big_endian (map_ipv4 p c b)))
  prefix-map_ipv4_iff a b n la lb ba bb ka kb h =
      let out =
        prefix-map_address_iff p c.prefixes 32 (omega arith) (big_endian a) (big_endian b) n
          (big_endian-lt a la ba) (big_endian-lt b lb bb) h in
      let ea = ap (prefix 32 n) (big_endian-map_ipv4 a la ba ka) in
      let eb = ap (prefix 32 n) (big_endian-map_ipv4 b lb bb kb) in
      (λ e. ea ∙ out.0 e ∙ sym eb, λ e. out.1 (sym ea ∙ e ∙ eb))

  pub length-map_ipv4 : (raw : Bytes) → length raw ≡ 4 → length (map_ipv4 p c raw) ≡ 4
  unfolding map_ipv4
  length-map_ipv4 raw h =
      ground (arith, h, length-be_bytes 4 (map_address p c.prefixes (big_endian raw) 32))

  pub length-plain_ipv6 : (raw : Bytes) → length raw ≡ 16 → length (plain_ipv6 p c raw) ≡ 16
  unfolding plain_ipv6 map_ipv6_native
  length-plain_ipv6 raw h =
      let front : length (take 12 raw) ≡ 12 = omega (arith, length-take 12 raw) in
      let back = length-map_ipv4 (drop 12 raw) (omega (arith, length-drop 12 raw)) in
      let joined = length-append (take 12 raw) (map_ipv4 p c (drop 12 raw)) in
      let native = length-be_bytes 16 (map_address p c.prefixes (big_endian raw) 128) in
      ground (arith, h, front, back, joined, native)

  pub length-map_mac : (raw : Bytes) → length raw ≡ 6 → length (map_mac p c raw) ≡ 6
  unfolding map_mac
  length-map_mac raw h =
      let hash = p.hmac c.hash_key (0x6D ∷ 0x61 ∷ 0x63 ∷ 0x00 ∷ raw) in
      let size = p.length-hmac c.hash_key (0x6D ∷ 0x61 ∷ 0x63 ∷ 0x00 ∷ raw) in
      let vendor : length (take 3 raw ++ take 3 hash) ≡ 6 = omega (
        arith,
        length-append (take 3 raw) (take 3 hash),
        length-take 3 raw,
        length-take 3 hash,
        size,
      ) in
      let hashed : length (take 5 (drop 1 hash)) ≡ 5 =
        omega (arith, length-take 5 (drop 1 hash), length-drop 1 hash, size) in
      ground (arith, h, vendor, hashed)

  -- `(byte & 0xFC) | 0x02`
  local_unicast : (byte : ℕ) → bit_or (bit_and byte 0xFC) 0x02 % 4 ≡ 2
  local_unicast byte =
      let masked : bit_and byte 0xFC ≡ bit_and (byte / 2 ^ 2) 63 * 2 ^ 2 =
        bit_and-mul_pow 2 byte 63 in
      ap (λ x. bit_or x 2 % 4) masked
      ∙ ap (λ x. x % 4) (shl-bit_or 2 (bit_and (byte / 2 ^ 2) 63) 2 (omega arith))
      ∙ omega arith

  odd-bit_and : (a : ℕ) (b : Bool) → (not (bit_and a 0x01 == 0) || b) ≡ (a % 2 == 1 || b)
  odd-bit_and a b = let low = bit_and_1 a in ground (arith, low)

  -- The stand-in of a MAC address has six bytes. A group address and the zero address are their own.
  -- Any other keeps its first three bytes where the vendor is kept, and is else a locally
  -- administered unicast address.
  pub map_mac_kinds :
      (raw : Bytes)
      → length raw ≡ 6
      → (length (map_mac p c raw) ≡ 6)
        × ((is_group_or_zero raw ≡ true) × (map_mac p c raw ≡ raw)
            ⊎ (is_group_or_zero raw ≡ false)
              × ((c.keep_oui ≡ true) × (take 3 (map_mac p c raw) ≡ take 3 raw)
                  ⊎ (c.keep_oui ≡ false) × (get_or (map_mac p c raw) 0 0 % 4 ≡ 2)))
  unfolding map_mac
  map_mac_kinds raw h =
      let hash = p.hmac c.hash_key (0x6D ∷ 0x61 ∷ 0x63 ∷ 0x00 ∷ raw) in
      let guard = odd-bit_and (get_or raw 0 0) (bytes_eq raw (0 ∷ 0 ∷ 0 ∷ 0 ∷ 0 ∷ 0 ∷ [])) in
      (
        length-map_mac raw h,
        elim (Bool-cases (is_group_or_zero raw)) [
          | inl itself ↦ let passed = guard ∙ itself in inl (itself, rw passed)
          | inr device ↦
              let passed = guard ∙ device in
              inr (
                device,
                elim (Bool-cases c.keep_oui) [
                  | inl kept ↦
                      let size : 3 ≤ length (take 3 raw) = omega (arith, length-take 3 raw) in
                      let whole : length (take 3 raw) ≡ 3 = omega (arith, length-take 3 raw) in
                      inl (
                        kept,
                        rw (passed, kept)
                            (take-append_le 3 (take 3 raw) (take 3 hash) size
                              ∙ take_all 3 (take 3 raw) whole),
                      )
                  | inr hashed ↦ inr (hashed, rw (passed, hashed) (local_unicast (get_or hash 0 0)))
                ],
              )
        ],
      )

-- A stand-in has the length of its kind.
abbrev pub HasSize : Address → Bytes → Type 0
HasSize (ipv4 raw) v = length v ≡ 4
HasSize (ipv6 raw) v = length v ≡ 16
HasSize (mac raw) v = length v ≡ 6
