-- ===== src/Sanitizer/Masks/Credentials.antt =====
-- The masks of credentials together.
use pcap_server.Prelude.{
  ℕ, zero, suc, ◌+◌, ◌-◌, ◌≡◌, ◌≤◌, ◌<◌, refl, sym, ap, ◌∙◌, Bool, false, ◌++◌, Option, none, some,
  Bytes, length, take, drop, slice, get_or, arith, length-take, length-drop,
}
use pcap_server.Sanitizer.Texts.{find_byte, fill_with}
use pcap_server.Sanitizer.Fields.{Json}
use pcap_server.Sanitizer.Masks.{
  Place, find_value, utf_8_only, mask_secret, mask_auth, cookie_stop, mask_pair, mask_cookie,
}
use pcap_server.Sanitizer.Masks.Found.{Finds, find_value-Finds, IsFound-within}
use pcap_server.Sanitizer.Masks.Lengths.{
  length-fill_with, length-replaced, ByteAt, find_byte-ByteAt, length-mask_secret, length-mask_auth,
}
use pcap_server.Sanitizer.Rewriter.Writes.{get_or-take, get_or-drop}

get_or-slice :
    (xs : Bytes) (first last i : ℕ)
    → i < last - first
    → get_or (slice xs first last) i 0 ≡ get_or xs (first + i) 0
get_or-slice xs first last i h =
    get_or-take (last - first) (drop first xs) i 0 h ∙ get_or-drop first xs (first + i) i 0 refl

module _ (segment : Bytes) (first last : ℕ) (low : first ≤ last)
    (high : last ≤ length segment) where
  length-slice : (from : ℕ) → from ≤ last → length (slice segment from last) ≡ last - from
  length-slice from h =
      omega
        (arith, h, high, length-take (last - from) (drop from segment), length-drop from segment)

  -- The ";" that ends a value stands behind its "=".
  stop_after :
      (at : ℕ) (o : Option ℕ)
      → ByteAt (slice segment first last) 0x3D (some at)
      → ByteAt (slice segment (first + at) last) 0x3B o
      → (first + at + 1 ≤ cookie_stop last (first + at) o)
        × (cookie_stop last (first + at) o ≤ last)
  unfolding cookie_stop
  stop_after at none found h = (omega (arith, found.0, length-slice first low), omega arith)
  stop_after at (some zero) found h =
      let inside : at < last - first = omega (arith, found.0, length-slice first low) in
      let ahead : 0 < last - (first + at) = omega (arith, inside) in
      let same : 0x3D ≡ 0x3B =
        sym found.1
        ∙ get_or-slice segment first last at inside
        ∙ ap (λ i. get_or segment i 0) (omega arith)
        ∙ sym (get_or-slice segment (first + at) last 0 ahead)
        ∙ h.1 in
      absurd (omega (arith, same))
  stop_after at (some (suc more)) found h =
      let inside : first + at ≤ last = omega (arith, found.0, length-slice first low) in
      (omega arith, omega (arith, h.0, length-slice (first + at) inside))

  length-mask_pair : length (mask_pair segment first last) ≡ length segment
  unfolding mask_pair
  length-mask_pair =
      masked (find_byte (slice segment first last) 0x3D)
        (find_byte-ByteAt (slice segment first last) 0x3D)
    where
      masked :
          (o : Option ℕ)
          → ByteAt (slice segment first last) 0x3D o
          → length (elim o [
            | none ↦ take first segment ++ fill_with (last - first) 0x2A ++ drop last segment
            | some at ↦
                let equals = first + at in
                let stop = cookie_stop last equals (find_byte (slice segment equals last) 0x3B) in
                take (equals + 1) segment ++ fill_with (stop - equals - 1) 0x2A ++ drop stop segment
          ])
            ≡ length segment
      masked none h =
          length-replaced segment (fill_with (last - first) 0x2A) first last low high
            (length-fill_with (last - first) 0x2A)
      masked (some at) h =
          let equals = first + at in
          let found = find_byte (slice segment equals last) 0x3B in
          let stop = cookie_stop last equals found in
          let (after, before) =
            stop_after at found h (find_byte-ByteAt (slice segment equals last) 0x3B) in
          length-replaced segment (fill_with (stop - equals - 1) 0x2A) (equals + 1) stop after
            (omega (arith, before, high)) (omega (arith, length-fill_with (stop - equals - 1) 0x2A))

length-mask_cookie :
    (segment : Bytes) (value : Json) → length (mask_cookie segment value) ≡ length segment
unfolding mask_cookie
length-mask_cookie segment value =
    masked (find_value segment value utf_8_only) (find_value-Finds segment value utf_8_only)
  where
    masked :
        (o : Option Place)
        → Finds segment value o
        → length (elim o [
          | none ↦ mask_secret segment value false
          | some (first, last, encoding) ↦ mask_pair segment first last
        ])
          ≡ length segment
    masked none h = length-mask_secret segment value false
    masked (some at) (shown, e, h) =
        let (low, high) = IsFound-within segment shown at h in
        length-mask_pair segment at.0 at.1 low high

-- The masks of a credential, whatever its bytes and the value shown for it, keep the length of the
-- field: no credential of these styles is left in place because its mask would not fit.
pub masks_keep_length :
    (segment : Bytes) (value : Json) (binary : Bool)
    → (length (mask_secret segment value binary) ≡ length segment)
      × (length (mask_auth segment value) ≡ length segment)
      × (length (mask_cookie segment value) ≡ length segment)
masks_keep_length segment value binary = (
  length-mask_secret segment value binary,
  length-mask_auth segment value,
  length-mask_cookie segment value,
)
