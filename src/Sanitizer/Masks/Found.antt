-- ===== src/Sanitizer/Masks/Found.antt =====
-- Where `_find_value` finds a value.
use pcap_server.Prelude.{
  ℕ, suc, ◌+◌, ◌-◌, ◌/◌, ◌%◌, ◌≡◌, ◌≤◌, refl, sym, ap, subst, ◌∙◌, Bool, true, false, List, [], ◌∷◌,
  ◌++◌, Option, none, some, Bytes, Text, length, take, drop, bytes_eq, bytes_eq→eq, arith,
  length-append, length-take, length-drop, ltb, if◌then◌else◌,
}
use pcap_server.Sanitizer.Texts.{
  Encoding, utf_16_le, encode, encode_char, rfind, starts_with, is_surrogate, two_bytes_le,
}
use pcap_server.Sanitizer.Fields.{Json, text_of}
use pcap_server.Sanitizer.Masks.{Place, find_encoded, find_value}

-- The needle stands in the bytes at an index.
abbrev IsAt : Bytes → Bytes → Option ℕ → Type 0
IsAt xs needle none = Unit
IsAt xs needle (some i) = (take (length needle) (drop i xs) ≡ needle) × (i ≤ length xs)

IsAt-if :
    (xs needle : Bytes) (b : Bool) (i : ℕ)
    → (b ≡ true → (take (length needle) (drop i xs) ≡ needle) × (i ≤ length xs))
    → IsAt xs needle (if b then some i else none)
IsAt-if xs needle true i h = h refl
IsAt-if xs needle false i h = tt

starts_with-take :
    (xs prefix : Bytes) → starts_with xs prefix ≡ true → take (length prefix) xs ≡ prefix
unfolding starts_with
starts_with-take xs prefix h = bytes_eq→eq (take (length prefix) xs) prefix h

rfind-IsAt : (xs needle : Bytes) → IsAt xs needle (rfind xs needle)
unfolding rfind
rfind-IsAt [] needle = IsAt-if [] needle (bytes_eq needle []) 0 (λ h.
    let e = bytes_eq→eq needle [] h in
    (subst (λ n. take (length n) [] ≡ n) (sym e) refl, omega arith))
rfind-IsAt (x ∷ xs) needle = later (rfind xs needle) (rfind-IsAt xs needle)
  where
    later :
        (o : Option ℕ)
        → IsAt xs needle o
        → IsAt (x ∷ xs) needle (elim o [
          | some i ↦ some (suc i)
          | none ↦ if starts_with (x ∷ xs) needle then some 0 else none
        ])
    later (some i) h = (h.0, omega (arith, h.1))
    later none h =
        IsAt-if (x ∷ xs) needle (starts_with (x ∷ xs) needle) 0
          (λ h. (starts_with-take (x ∷ xs) needle h, omega arith))

-- A place in a segment where the value stands in an encoding.
pub record IsFound (segment : Bytes) (value : Text) (at : Place) : Type 0 where
  pub needle : Bytes
  pub encoded : encode at.2 value ≡ some needle
  pub ends : at.1 ≡ at.0 + length needle
  pub there : take (length needle) (drop at.0 segment) ≡ needle
  pub begins : at.0 ≤ length segment

abbrev MaybeFound : Bytes → Text → Option Place → Type 0
MaybeFound segment value none = Unit
MaybeFound segment value (some at) = IsFound segment value at

tried :
    (segment : Bytes) (value : Text) (encoding : Encoding) (later : Option Place) (o : Option Bytes)
    → encode encoding value ≡ o
    → MaybeFound segment value later
    → MaybeFound segment value (elim o [
      | none ↦ later
      | some needle ↦ elim (rfind segment needle) [
        | none ↦ later
        | some index ↦ some (index, index + length needle, encoding)
      ]
    ])
tried segment value encoding later none e h = h
tried segment value encoding later (some needle) e h =
    placed (rfind segment needle) (rfind-IsAt segment needle)
  where
    placed :
        (i : Option ℕ)
        → IsAt segment needle i
        → MaybeFound segment value
            (elim i [ none ↦ later | some index ↦ some (index, index + length needle, encoding) ])
    placed none at = h
    placed (some index) at = record {
      needle = needle;
      encoded = e;
      ends = refl;
      there = at.0;
      begins = at.1;
    }

find_encoded-MaybeFound :
    (segment : Bytes) (value : Text) (encodings : List Encoding)
    → MaybeFound segment value (find_encoded segment value encodings)
unfolding find_encoded
find_encoded-MaybeFound segment value [] = tt
find_encoded-MaybeFound segment value (encoding ∷ more) =
    tried segment value encoding (find_encoded segment value more) (encode encoding value) refl
      (find_encoded-MaybeFound segment value more)

-- What `_find_value` finds of a shown value.
abbrev pub Finds : Bytes → Json → Option Place → Type 0
Finds segment value none = Unit
Finds segment value (some at) =
    (shown : Text) × (text_of value ≡ some shown) × IsFound segment shown at

pub find_value-Finds :
    (segment : Bytes) (value : Json) (encodings : List Encoding)
    → Finds segment value (find_value segment value encodings)
unfolding find_value
find_value-Finds segment value encodings = shown_as (text_of value) refl
  where
    given :
        (shown : Text)
        → text_of value ≡ some shown
        → (o : Option Place) → MaybeFound segment shown o
        → Finds segment value o
    given shown e none h = tt
    given shown e (some at) h = (shown, e, h)

    unless_empty :
        (shown : Text) (b : Bool)
        → text_of value ≡ some shown
        → Finds segment value (if b then none else find_encoded segment shown encodings)
    unless_empty shown true e = tt
    unless_empty shown false e =
        given shown e (find_encoded segment shown encodings)
          (find_encoded-MaybeFound segment shown encodings)

    shown_as :
        (o : Option Text)
        → text_of value ≡ o
        → Finds segment value (elim o [
          | none ↦ none
          | some shown ↦ if bytes_eq shown [] then none else find_encoded segment shown encodings
        ])
    shown_as none e = tt
    shown_as (some shown) e = unless_empty shown (bytes_eq shown []) e

-- The place lies in the segment.
pub IsFound-within :
    (segment : Bytes) (value : Text) (at : Place)
    → IsFound segment value at
    → (at.0 ≤ at.1) × (at.1 ≤ length segment)
IsFound-within segment value at h =
    let fits : length h.needle ≤ length segment - at.0 = omega (
      arith,
      ap length h.there,
      length-take (length h.needle) (drop at.0 segment),
      length-drop at.0 segment,
    ) in
    (omega (arith, h.ends), omega (arith, h.ends, fits, h.begins))

-- A text in UTF-16 has an even number of bytes.
abbrev Even : Option Bytes → Type 0
Even none = Unit
Even (some xs) = length xs % 2 ≡ 0

utf16_char_even : (c : ℕ) → length (encode_char utf_16_le c) % 2 ≡ 0
utf16_char_even c = units (ltb c 0x10000)
  where
    units :
        (b : Bool)
        → length (
              if b
              then two_bytes_le c
              else two_bytes_le (0xD800 + (c - 0x10000) / 1024)
                ++ two_bytes_le (0xDC00 + (c - 0x10000) % 1024))
            % 2
          ≡ 0
    units true = refl
    units false = refl

encode-Even : (value : Text) → Even (encode utf_16_le value)
unfolding encode
encode-Even [] = refl
encode-Even (c ∷ cs) = longer (encode utf_16_le cs) (encode-Even cs)
  where
    kept :
        (b : Bool) (rest : Bytes)
        → length rest % 2 ≡ 0
        → Even (if b then none else some (encode_char utf_16_le c ++ rest))
    kept true rest h = tt
    kept false rest h =
        omega (arith, h, utf16_char_even c, length-append (encode_char utf_16_le c) rest)

    longer :
        (o : Option Bytes)
        → Even o
        → Even (elim o [
          | none ↦ none
          | some rest ↦ if is_surrogate c then none else some (encode_char utf_16_le c ++ rest)
        ])
    longer none h = tt
    longer (some rest) h = kept (is_surrogate c) rest h

pub IsFound-even :
    (segment : Bytes) (value : Text) (at : Place)
    → IsFound segment value at
    → at.2 ≡ utf_16_le
    → (at.1 - at.0) % 2 ≡ 0
IsFound-even segment value at h e =
    let even : Even (some h.needle) =
      subst Even (ap (λ enc. encode enc value) (sym e) ∙ h.encoded) (encode-Even value) in
    omega (arith, even, h.ends)
