-- ===== src/Anonymize.antt =====
-- backend/anonymize.py: the stand-ins for addresses and names.
-- AES, HMAC-SHA256, HKDF and str.lower with its UTF-8 encoding are outside (the record `Primitives`).
pub mod Blocks
pub mod Prefix
pub mod Mapper
pub mod Names
pub mod Examples
use pcap_server.Prelude.{
  ℕ, zero, suc, ◌+◌, ◌-◌, ◌*◌, ◌%◌, ◌^◌, ◌≡◌, ◌<◌, Bool, true, false, not, ◌&&◌, ◌||◌, List, [],
  ◌∷◌, ◌++◌, Option, none, some, Bytes, IsBytes, ltb, leb, ◌==◌, length, take, drop, get_or,
  be_bytes, big_endian, bytes_eq, shl, shr, bit_and, bit_or, bit_xor, if◌then◌else◌,
}

-- What the cryptography package and the standard library do, and what is relied on.
pub record Primitives : Type 0 where
  -- The ECB encryptor of a key, `update` on whole blocks: each block on its own.
  pub aes : Bytes → Bytes → Bytes
  pub aes-append :
      (key block rest : Bytes)
      → length block ≡ 16
      → aes key (block ++ rest) ≡ aes key block ++ aes key rest
  pub length-aes : (key block : Bytes) → length block ≡ 16 → length (aes key block) ≡ 16
  pub aes-IsBytes : (key blocks : Bytes) → IsBytes (aes key blocks)
  -- hmac.new(key, message, hashlib.sha256).digest()
  pub hmac : Bytes → Bytes → Bytes
  pub length-hmac : (key message : Bytes) → length (hmac key message) ≡ 32
  pub hmac-IsBytes : (key message : Bytes) → IsBytes (hmac key message)
  -- derive_subkey(secret, info, length), which is HKDF-SHA256.
  pub derive_subkey : Bytes → Bytes → ℕ → Bytes
  pub length-derive_subkey :
      (secret info : Bytes) (len : ℕ) → length (derive_subkey secret info len) ≡ len
  -- value.lower().encode("utf-8", "surrogatepass")
  pub lower_utf8 : List ℕ → Bytes

-- b"pcap-server sanitize v1"
abbrev pub key_info : Bytes
key_info =
    0x70 ∷ 0x63 ∷ 0x61 ∷ 0x70 ∷ 0x2D ∷ 0x73 ∷ 0x65 ∷ 0x72 ∷ 0x76 ∷ 0x65 ∷ 0x72 ∷ 0x20 ∷ 0x73 ∷ 0x61
    ∷ 0x6E ∷ 0x69 ∷ 0x74 ∷ 0x69 ∷ 0x7A ∷ 0x65 ∷ 0x20 ∷ 0x76 ∷ 0x31 ∷ []

unfoldable pub derive_key : Primitives → Bytes → Bytes → Bytes
derive_key p secret context = p.derive_subkey secret (key_info ++ context) 64

-- The pairs of a base and a prefix's length.
abbrev pub Ranges : Type 0
Ranges = List (ℕ × ℕ)

abbrev pub ipv4_always_kept : Ranges
ipv4_always_kept = (0x00000000, 32) ∷ (0x7F000000, 8) ∷ (0xE0000000, 4) ∷ (0xF0000000, 4) ∷ []

abbrev pub ipv4_private : Ranges
ipv4_private =
    (0x0A000000, 8) ∷ (0xAC100000, 12) ∷ (0xC0A80000, 16) ∷ (0xA9FE0000, 16) ∷ (0x64400000, 10) ∷ []

unfoldable pub ipv6_always_kept : Ranges
ipv6_always_kept = (0, 128) ∷ (1, 128) ∷ (shl 0xFF 120, 8) ∷ []

unfoldable pub ipv6_private : Ranges
ipv6_private = (shl 0xFE80 112, 10) ∷ (shl 0xFC 120, 7) ∷ []

unfoldable pub in_ranges : ℕ → ℕ → Ranges → Bool
in_ranges value bits [] = false
in_ranges value bits ((base, prefix) ∷ rest) =
    shr value (bits - prefix) == shr base (bits - prefix) || in_ranges value bits rest

-- The key and the pad of a `PrefixPreservingMap`.
pub record PrefixMap : Type 0 where
  pub aes_key : Bytes
  pub pad : ℕ

-- `PrefixPreservingMap(key32)`; `none` is the ValueError.
unfoldable pub prefix_map : Primitives → Bytes → Option PrefixMap
prefix_map p key32 =
    if not (length key32 == 32)
    then none
    else some (record {
      aes_key = take 16 key32;
      pad = big_endian (p.aes (take 16 key32) (drop 16 key32));
    })

-- `((1 << position) - 1) << (128 - position)`, which is 0 at position 0.
unfoldable pub keep_mask : ℕ → ℕ
keep_mask position = if position == 0 then 0 else shl (2 ^ position - 1) (128 - position)

-- `(aligned & keep) | (pad & ~keep & _MASK128)`: `~keep & _MASK128` is `_MASK128 - keep`.
unfoldable pub block_at : ℕ → ℕ → ℕ → ℕ
block_at pad aligned position =
    bit_or (bit_and aligned (keep_mask position)) (bit_and pad (2 ^ 128 - 1 - keep_mask position))

-- The first loop of `map`: the blocks of `n` positions from one on.
unfoldable pub blocks_from : ℕ → ℕ → ℕ → ℕ → Bytes
blocks_from zero pad aligned position = []
blocks_from (suc n) pad aligned position =
    be_bytes 16 (block_at pad aligned position) ++ blocks_from n pad aligned (position + 1)

-- The second loop: `flips = (flips << 1) | (out[position * 16] >> 7)`.
unfoldable pub flips_from : ℕ → Bytes → ℕ → ℕ → ℕ
flips_from zero out position flips = flips
flips_from (suc n) out position flips =
    flips_from n out (position + 1) (bit_or (shl flips 1) (shr (get_or out (position * 16) 0) 7))

unfoldable pub map_address : Primitives → PrefixMap → ℕ → ℕ → ℕ
map_address p m address bits =
    let aligned = shl address (128 - bits) in
    let out = p.aes m.aes_key (blocks_from bits m.pad aligned 0) in
    bit_xor address (flips_from bits out 0 0)
