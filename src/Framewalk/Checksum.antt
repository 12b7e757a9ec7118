-- ===== src/Framewalk/Checksum.antt =====
-- backend/framewalk.py: `_ones_sum` and `refresh_checksums`.
pub mod Slices
pub mod Rfc1624
pub mod Receiver
pub mod Refresh
pub mod Walked
pub mod Examples
use mathlib.Core.List.{reverse, foldl}
use pcap_server.Prelude.{
  ℕ, ◌+◌, ◌-◌, ◌*◌, ◌%◌, min, Bool, true, false, ◌&&◌, List, [], ◌∷◌, ◌++◌, Bytes, ltb, ◌==◌,
  length, get_or, set, take, drop, slice, big_endian, bytes_eq, shl, shr, bit_and, bit_or,
  if◌then◌else◌,
}
use pcap_server.Framewalk.{Scope}

-- The one's-complement sum of the data as 16-bit words, reduced modulo 0xFFFF.
unfoldable pub ones_sum : Bytes → ℕ
ones_sum xs = big_endian (if length xs % 2 == 0 then xs else xs ++ 0 ∷ []) % 0xFFFF

-- `b"".join(xs[p:p + n] for p, n in pseudo)`
unfoldable pub pseudo_bytes : Bytes → List (ℕ × ℕ) → Bytes
pseudo_bytes xs [] = []
pseudo_bytes xs ((p, n) ∷ rest) = slice xs p (p + n) ++ pseudo_bytes xs rest

-- `xs[rel:rel + 2] = b"\x00\x00"`
unfoldable pub zero_field : ℕ → Bytes → Bytes
zero_field rel xs = take rel xs ++ 0 ∷ 0 ∷ drop (rel + 2) xs

-- `before` or `after`: what the scope covers, with the checksum's own field cleared.
-- `end` is the scope's end, cut to the buffer's length. The field is at or after `start`.
unfoldable pub covered : Bytes → Scope → ℕ → Bytes
covered xs s end = zero_field (s.checksum_at - s.start) (slice xs s.start end)

-- `(xs[at] << 8) | xs[at + 1]`
unfoldable pub field_value : Bytes → ℕ → ℕ
field_value xs at = bit_or (shl (get_or xs at 0) 8) (get_or xs (at + 1) 0)

unfoldable pub total_sum : Bytes → Bytes → ℕ
total_sum body pseudo = (ones_sum body + ones_sum pseudo) % 0xFFFF

-- RFC 1624, equation 3, on a 16-bit checksum and two sums below 0xFFFF. `~x & 0xFFFF` is
-- `0xFFFF - x`, and Python's `%` takes the difference to the residue that is not negative.
unfoldable pub updated_checksum : ℕ → ℕ → ℕ → ℕ
updated_checksum checksum old_sum new_sum =
    let folded = (0xFFFF - checksum + new_sum + 0xFFFF - old_sum) % 0xFFFF in 0xFFFF - folded

-- `edited[at] = value >> 8; edited[at + 1] = value & 0xFF`
unfoldable pub write_field : Bytes → ℕ → ℕ → Bytes
write_field xs at value = set (set xs at (shr value 8)) (at + 1) (bit_and value 0xFF)

-- One round of the loop.
unfoldable pub refresh_scope : Bytes → Bytes → Scope → Bytes
refresh_scope original edited s =
    let at = s.checksum_at in
    let end = min s.end (length edited) in
    let before = covered original s end in
    let after = covered edited s end in
    let pseudo_before = pseudo_bytes original s.pseudo in
    let pseudo_after = pseudo_bytes edited s.pseudo in
    if ltb (length edited) (at + 2)
    then edited
    else if bytes_eq before after && bytes_eq pseudo_before pseudo_after
    then edited
    else write_field edited at (
        updated_checksum (field_value edited at) (total_sum before pseudo_before)
          (total_sum after pseudo_after))

-- Innermost first: the walker's scopes from the last to the first.
unfoldable pub refresh_checksums : Bytes → Bytes → List Scope → Bytes
refresh_checksums original edited scopes = foldl (refresh_scope original) edited (reverse scopes)
