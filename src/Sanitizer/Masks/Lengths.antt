-- ===== src/Sanitizer/Masks/Lengths.antt =====
-- The masks keep the length of a field.
use pcap_server.Prelude.{
  ℕ, zero, suc, ◌+◌, ◌-◌, ◌*◌, ◌/◌, ◌≡◌, ◌≤◌, ◌<◌, refl, ap, Bool, true, false, [], ◌∷◌, ◌++◌,
  Option, none, some, Bytes, Text, length, take, drop, slice, get_or, map, arith, length-append,
  length-take, length-drop, ◌==◌, if◌then◌else◌,
}
use pcap_server.Sanitizer.Texts.{utf_8, utf_16_le, find_byte, fill_with}
use pcap_server.Sanitizer.Fields.{Json}
use pcap_server.Sanitizer.Masks.{
  Place, find_value, both_encodings, utf_8_only, stars_16, fill, mask_byte, mask_secret, is_blank,
  is_scheme_byte, run_length, scheme_length, mask_auth,
}
use pcap_server.Sanitizer.Masks.Found.{
  IsFound, Finds, find_value-Finds, IsFound-within, IsFound-even,
}

pub length-fill_with : (n b : ℕ) → length (fill_with n b) ≡ n
unfolding fill_with
length-fill_with zero b = refl
length-fill_with (suc n) b = ap suc (length-fill_with n b)

length-map_mask : (xs : Bytes) → length (map mask_byte xs) ≡ length xs
length-map_mask [] = refl
length-map_mask (x ∷ xs) = ap suc (length-map_mask xs)

-- A stretch of a segment replaced by as many bytes.
pub length-replaced :
    (segment new : Bytes) (first last : ℕ)
    → first ≤ last
    → last ≤ length segment
    → length new ≡ last - first
    → length (take first segment ++ new ++ drop last segment) ≡ length segment
length-replaced segment new first last h k size = omega (
  arith,
  h,
  k,
  size,
  length-append (take first segment ++ new) (drop last segment),
  length-append (take first segment) new,
  length-take first segment,
  length-drop last segment,
)

run_length-le : (test : ℕ → Bool) (xs : Bytes) → run_length test xs ≤ length xs
unfolding run_length
run_length-le test [] = omega arith
run_length-le test (x ∷ xs) = counted (test x) (run_length-le test xs)
  where
    counted :
        (b : Bool)
        → run_length test xs ≤ length xs
        → (if b then suc (run_length test xs) else 0) ≤ suc (length xs)
    counted true h = omega (arith, h)
    counted false h = omega arith

scheme_length-le : (xs : Bytes) → scheme_length xs ≤ length xs
unfolding scheme_length
scheme_length-le [] = omega arith
scheme_length-le (x ∷ xs) = matched _
  where
    matched :
        (b : Bool)
        → (if b
            then 0
            else suc (
                run_length is_scheme_byte xs
                + run_length is_blank (drop (run_length is_scheme_byte xs) xs)))
          ≤ suc (length xs)
    matched true = omega arith
    matched false = omega (
      arith,
      run_length-le is_scheme_byte xs,
      run_length-le is_blank (drop (run_length is_scheme_byte xs) xs),
      length-drop (run_length is_scheme_byte xs) xs,
    )

-- Where a byte is found.
abbrev pub ByteAt : Bytes → ℕ → Option ℕ → Type 0
ByteAt xs b none = Unit
ByteAt xs b (some i) = (i < length xs) × (get_or xs i 0 ≡ b)

pub find_byte-ByteAt : (xs : Bytes) (b : ℕ) → ByteAt xs b (find_byte xs b)
unfolding find_byte
find_byte-ByteAt [] b = tt
find_byte-ByteAt (x ∷ xs) b = later (find_byte xs b) (find_byte-ByteAt xs b)
  where
    first :
        (t : Bool) (o : Option ℕ)
        → (t ≡ true → x ≡ b)
        → ByteAt (x ∷ xs) b o
        → ByteAt (x ∷ xs) b (if t then some 0 else o)
    first true o e h = (omega arith, e refl)
    first false o e h = h

    later :
        (o : Option ℕ)
        → ByteAt xs b o
        → ByteAt (x ∷ xs) b (elim o [
          | some i ↦ if x == b then some 0 else some (suc i)
          | none ↦ if x == b then some 0 else none
        ])
    later (some i) h =
        first (x == b) (some (suc i)) (λ e. ground (arith, e)) (omega (arith, h.0), h.1)
    later none h = first (x == b) none (λ e. ground (arith, e)) tt

length-stars_16 : (n : ℕ) → length (stars_16 n) ≡ n * 2
unfolding stars_16
length-stars_16 zero = refl
length-stars_16 (suc n) = omega (arith, length-stars_16 n)

length-fill :
    (segment : Bytes) (shown : Text) (at : Place)
    → IsFound segment shown at
    → length (fill (at.1 - at.0) at.2) ≡ at.1 - at.0
unfolding fill
length-fill segment shown (first, last, utf_8) h = length-fill_with (last - first) 0x2A
length-fill segment shown (first, last, utf_16_le) h = omega (
  arith,
  length-stars_16 ((last - first) / 2),
  IsFound-even segment shown (first, last, utf_16_le) h refl,
)

pub length-mask_secret :
    (segment : Bytes) (value : Json) (binary : Bool)
    → length (mask_secret segment value binary) ≡ length segment
unfolding mask_secret
length-mask_secret segment value true = length-fill_with (length segment) 0x00
length-mask_secret segment value false =
    masked (find_value segment value both_encodings) (find_value-Finds segment value both_encodings)
  where
    masked :
        (o : Option Place)
        → Finds segment value o
        → length (elim o [
          | some (first, last, encoding) ↦
              take first segment ++ fill (last - first) encoding ++ drop last segment
          | none ↦ map mask_byte segment
        ])
          ≡ length segment
    masked none h = length-map_mask segment
    masked (some at) (shown, e, h) =
        let (low, high) = IsFound-within segment shown at h in
        length-replaced segment (fill (at.1 - at.0) at.2) at.0 at.1 low high
          (length-fill segment shown at h)

pub length-mask_auth :
    (segment : Bytes) (value : Json) → length (mask_auth segment value) ≡ length segment
unfolding mask_auth
length-mask_auth segment value =
    masked (find_value segment value utf_8_only) (find_value-Finds segment value utf_8_only)
  where
    masked :
        (o : Option Place)
        → Finds segment value o
        → length (elim o [
          | none ↦ mask_secret segment value false
          | some (first, last, encoding) ↦
              let keep = first + scheme_length (slice segment first last) in
              take keep segment ++ fill_with (last - keep) 0x2A ++ drop last segment
        ])
          ≡ length segment
    masked none h = length-mask_secret segment value false
    masked (some at) (shown, e, h) =
        let (low, high) = IsFound-within segment shown at h in
        let word = scheme_length (slice segment at.0 at.1) in
        let short : at.0 + word ≤ at.1 = omega (
          arith,
          low,
          high,
          scheme_length-le (slice segment at.0 at.1),
          length-take (at.1 - at.0) (drop at.0 segment),
        ) in
        length-replaced segment (fill_with (at.1 - (at.0 + word)) 0x2A) (at.0 + word) at.1 short
          high (length-fill_with (at.1 - (at.0 + word)) 0x2A)
