-- ===== src/Sanitizer/Masks.antt =====
-- backend/sanitizer.py: `_find_value`, `_fill`, the masks, `_map_dns_labels` and NetBIOS names.
pub mod Found
pub mod Lengths
pub mod Rounds
pub mod Credentials
use pcap_server.Prelude.{
  ℕ, zero, suc, ◌+◌, ◌-◌, ◌/◌, Bool, true, false, not, ◌&&◌, ◌||◌, List, [], ◌∷◌, ◌++◌, Option,
  none, some, Bytes, ltb, leb, ◌==◌, length, take, drop, slice, get_or, bit_and, bytes_eq,
  if◌then◌else◌, Text, map,
}
use pcap_server.Anonymize.{Primitives}
use pcap_server.Anonymize.Names.{Pseudonyms, label}
use pcap_server.Sanitizer.Texts.{Encoding, utf_8, utf_16_le, encode, rfind, find_byte, fill_with}
use pcap_server.Sanitizer.Fields.{Json, text_of}

-- A value in a segment: its start, its end and its encoding.
abbrev pub Place : Type 0
Place = ℕ × ℕ × Encoding

unfoldable pub find_encoded : Bytes → Text → List Encoding → Option Place
find_encoded segment value [] = none
find_encoded segment value (encoding ∷ more) =
    let later = find_encoded segment value more in
    elim (encode encoding value) [
      | none ↦ later
      | some needle ↦ elim (rfind segment needle) [
        | none ↦ later
        | some index ↦ some (index, index + length needle, encoding)
      ]
    ]

unfoldable pub find_value : Bytes → Json → List Encoding → Option Place
find_value segment value encodings = elim (text_of value) [
  | none ↦ none
  | some shown ↦ if bytes_eq shown [] then none else find_encoded segment shown encodings
]

abbrev pub both_encodings : List Encoding
both_encodings = utf_8 ∷ utf_16_le ∷ []

abbrev pub utf_8_only : List Encoding
utf_8_only = utf_8 ∷ []

-- b"*\x00" * n
unfoldable pub stars_16 : ℕ → Bytes
stars_16 zero = []
stars_16 (suc n) = 0x2A ∷ 0x00 ∷ stars_16 n

unfoldable pub fill : ℕ → Encoding → Bytes
fill len utf_16_le = stars_16 (len / 2)
fill len utf_8 = fill_with len 0x2A

abbrev pub mask_byte : ℕ → ℕ
mask_byte b = if b == 0x0D || b == 0x0A || b == 0x00 then b else 0x2A

unfoldable pub mask_secret : Bytes → Json → Bool → Bytes
mask_secret segment value binary =
    if binary
    then fill_with (length segment) 0x00
    else elim (find_value segment value both_encodings) [
      | some (first, last, encoding) ↦
          take first segment ++ fill (last - first) encoding ++ drop last segment
      | none ↦ map mask_byte segment
    ]

abbrev pub is_letter : ℕ → Bool
is_letter b = leb 0x41 b && leb b 0x5A || leb 0x61 b && leb b 0x7A

abbrev pub is_scheme_byte : ℕ → Bool
is_scheme_byte b = is_letter b || leb 0x30 b && leb b 0x39 || b == 0x5F || b == 0x2D

abbrev pub is_blank : ℕ → Bool
is_blank b = b == 0x20 || b == 0x09

-- How many bytes at the front pass a test.
unfoldable pub run_length : (ℕ → Bool) → Bytes → ℕ
run_length test [] = 0
run_length test (x ∷ xs) = let later = run_length test xs in if test x then suc later else 0

-- `_SCHEME`, [A-Za-z][A-Za-z0-9_-]*[ \t]+, at the front of some bytes: how many it takes, 0 where
-- it does not match. The classes do not meet, so the longest runs are the match.
unfoldable pub scheme_length : Bytes → ℕ
scheme_length [] = 0
scheme_length (x ∷ xs) =
    let word = run_length is_scheme_byte xs in
    let blanks = run_length is_blank (drop word xs) in
    if not (is_letter x) || blanks == 0 then 0 else suc (word + blanks)

unfoldable pub mask_auth : Bytes → Json → Bytes
mask_auth segment value = elim (find_value segment value utf_8_only) [
  | none ↦ mask_secret segment value false
  | some (first, last, encoding) ↦
      let keep = first + scheme_length (slice segment first last) in
      take keep segment ++ fill_with (last - keep) 0x2A ++ drop last segment
]

-- `end if stop < 0 else stop`, from where the ";" was found.
unfoldable pub cookie_stop : ℕ → ℕ → Option ℕ → ℕ
cookie_stop last equals none = last
cookie_stop last equals (some more) = equals + more

-- The cookie's value: from behind the "=", up to a ";" or the end.
unfoldable pub mask_pair : Bytes → ℕ → ℕ → Bytes
mask_pair segment first last = elim (find_byte (slice segment first last) 0x3D) [
  | none ↦ take first segment ++ fill_with (last - first) 0x2A ++ drop last segment
  | some at ↦
      let equals = first + at in
      let stop = cookie_stop last equals (find_byte (slice segment equals last) 0x3B) in
      take (equals + 1) segment ++ fill_with (stop - equals - 1) 0x2A ++ drop stop segment
]

unfoldable pub mask_cookie : Bytes → Json → Bytes
mask_cookie segment value = elim (find_value segment value utf_8_only) [
  | none ↦ mask_secret segment value false
  | some (first, last, encoding) ↦ mask_pair segment first last
]

-- What the first loop of `_map_dns_labels` finds: the labels' places, whether the name ends here,
-- and the place where the loop stopped. `none` is its early return.
abbrev pub Labelled : Type 0
Labelled = List (ℕ × ℕ) × Bool × ℕ

unfoldable pub find_labels : ℕ → Bytes → ℕ → Option Labelled
find_labels zero segment i = some ([], false, i)
find_labels (suc k) segment i =
    let len = get_or segment i 0 in
    let later = find_labels k segment (i + 1 + len) in
    if not (ltb i (length segment))
    then some ([], false, i)
    else if len == 0
    then some ([], true, i)
    else if not (bit_and len 0xC0 == 0)
    then some ([], false, i)
    else if ltb (length segment) (i + 1 + len)
    then none
    else elim later [
      | none ↦ none
      | some (labels, ended, at) ↦ some ((i + 1, len) ∷ labels, ended, at)
    ]

-- `out[start:start + length] = xs`
abbrev pub assign : Bytes → ℕ → ℕ → Bytes → Bytes
assign out first len xs = take first out ++ xs ++ drop (first + len) out

module _ (p : Primitives) where
  -- The second loop; `keep` is whether the last label stays.
  unfoldable pub map_labels : Bool → Bytes → Pseudonyms → List (ℕ × ℕ) → Bytes → Bytes × Pseudonyms
  map_labels keep segment names [] out = (out, names)
  map_labels keep segment names ((first, len) ∷ []) out =
      let mapped = label p names (slice segment first (first + len)) in
      if keep then (out, names) else (assign out first len mapped.0, mapped.1)
  map_labels keep segment names ((first, len) ∷ next ∷ rest) out =
      let mapped = label p names (slice segment first (first + len)) in
      map_labels keep segment mapped.1 (next ∷ rest) (assign out first len mapped.0)

  unfoldable pub map_labelled : Bytes → Pseudonyms → Labelled → Option Bytes × Pseudonyms
  map_labelled segment names ([], ended, at) =
      (if ended || ltb at (length segment) then some segment else none, names)
  map_labelled segment names (one ∷ [], ended, at) =
      let mapped = map_labels false segment names (one ∷ []) segment in (some mapped.0, mapped.1)
  map_labelled segment names (one ∷ two ∷ rest, ended, at) =
      let mapped = map_labels ended segment names (one ∷ two ∷ rest) segment in
      (some mapped.0, mapped.1)

  unfoldable pub map_dns_labels : Bytes → Pseudonyms → Option Bytes × Pseudonyms
  map_dns_labels segment names = elim (find_labels (length segment) segment 0) [
    | none ↦ (none, names)
    | some found ↦ map_labelled segment names found
  ]
