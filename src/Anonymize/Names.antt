-- ===== src/Anonymize/Names.antt =====
-- backend/anonymize.py: Pseudonyms, the stand-ins for names.
pub mod Shape
pub mod Labels
pub mod Hosts
use pcap_server.Prelude.{
  ℕ, zero, suc, ◌+◌, ◌%◌, ◌-◌, Bool, true, false, ◌&&◌, ◌||◌, List, [], ◌∷◌, ◌++◌, Option, none,
  some, Bytes, ltb, leb, ◌==◌, length, take, be_bytes, bytes_eq, if◌then◌else◌, Dict, Text, lookup,
  store, map,
}
use pcap_server.Anonymize.{Primitives}
use pcap_server.Anonymize.Mapper.{cache_limit}

-- `lo <= byte <= hi`
abbrev pub between : ℕ → ℕ → ℕ → Bool
between lo hi byte = leb lo byte && leb byte hi

-- One round of `_apply`.
unfoldable pub apply_byte : ℕ → ℕ → ℕ
apply_byte byte pick =
    if between 0x61 0x7A byte
    then 0x61 + pick % 26
    else if between 0x41 0x5A byte
    then 0x41 + pick % 26
    else if between 0x30 0x39 byte
    then 0x30 + pick % 10
    else if leb 0x80 byte
    then 0x61 + pick % 26
    else byte

-- `_apply`. The IndexError on a stream that is too short is left out: see `stream`.
unfoldable pub apply : Bytes → Bytes → Bytes
apply [] picks = []
apply (b ∷ bs) [] = b ∷ bs
apply (b ∷ bs) (p ∷ ps) = apply_byte b p ∷ apply bs ps

-- bytes.lower, on ASCII letters alone.
abbrev pub lower_ascii : ℕ → ℕ
lower_ascii b = if between 0x41 0x5A b then b + 0x20 else b

-- str.lower on a code point below 256, and so on `bytes.decode("latin-1")`.
abbrev pub lower_latin1 : ℕ → ℕ
lower_latin1 c =
    if between 0x41 0x5A c || between 0xC0 0xD6 c || between 0xD8 0xDE c then c + 0x20 else c

-- {"arpa", "in-addr", "ip6"}
abbrev pub structural_labels : List Text
structural_labels =
    (0x61 ∷ 0x72 ∷ 0x70 ∷ 0x61 ∷ [])
    ∷ (0x69 ∷ 0x6E ∷ 0x2D ∷ 0x61 ∷ 0x64 ∷ 0x64 ∷ 0x72 ∷ [])
    ∷ (0x69 ∷ 0x70 ∷ 0x36 ∷ [])
    ∷ []

abbrev pub member_text : Text → List Text → Bool
member_text x [] = false
member_text x (y ∷ ys) = bytes_eq x y || member_text x ys

-- b"label"
abbrev pub label_kind : Bytes
label_kind = 0x6C ∷ 0x61 ∷ 0x62 ∷ 0x65 ∷ 0x6C ∷ []

-- A byte in front of the first part.
unfoldable pub grow : ℕ → List Bytes → List Bytes
grow b [] = (b ∷ []) ∷ []
grow b (part ∷ parts) = (b ∷ part) ∷ parts

-- `name.split(b".")`
unfoldable pub split_dots : Bytes → List Bytes
split_dots [] = [] ∷ []
split_dots (b ∷ bs) = let rest = split_dots bs in if b == 0x2E then [] ∷ rest else grow b rest

-- `b".".join(parts)`
unfoldable pub join_dots : List Bytes → Bytes
join_dots [] = []
join_dots (part ∷ []) = part
join_dots (part ∷ next ∷ parts) = part ++ 0x2E ∷ join_dots (next ∷ parts)

-- The hash key of a `Pseudonyms`, which is the second half of its key, and its cache.
pub record Pseudonyms : Type 0 where
  pub hash_key : Bytes
  pub labels : Dict Bytes

module _ (p : Primitives) where
  -- The loop of `_stream`; the first argument is the fuel.
  unfoldable pub extend_stream : ℕ → Bytes → Bytes → ℕ → Bytes → ℕ → Bytes
  extend_stream zero key seed counter out len = out
  extend_stream (suc k) key seed counter out len =
      let more =
        extend_stream k key seed (counter + 1) (out ++ p.hmac key (seed ++ be_bytes 4 counter))
          len in
      if ltb (length out) len then more else out

  unfoldable pub stream : Bytes → Bytes → Text → ℕ → Bytes
  stream key kind value len =
      take len (extend_stream len key (kind ++ 0x00 ∷ p.lower_utf8 value) 0 [] len)

  unfoldable pub text : Bytes → Bytes → Text → Bytes → Bytes
  text key kind value template = apply template (stream key kind value (length template))

  -- `label` after the cache was asked.
  unfoldable pub cached_label : Pseudonyms → Bytes → Text → Option Bytes → Bytes × Pseudonyms
  cached_label s raw value (some cached) = (cached, s)
  cached_label s raw value none =
      let made = text s.hash_key label_kind value (map lower_ascii raw) in
      (
        made,
        if ltb (length s.labels) cache_limit
            then record s { labels = store s.labels value made }
            else s,
      )

  unfoldable pub label : Pseudonyms → Bytes → Bytes × Pseudonyms
  label s raw =
      let value = map lower_latin1 raw in
      if member_text value structural_labels
      then (raw, s)
      else cached_label s raw value (lookup s.labels value)

  -- `self.label(part) if part else part`
  unfoldable pub label_part : Pseudonyms → Bytes → Bytes × Pseudonyms
  label_part s [] = ([], s)
  label_part s (b ∷ bs) = label s (b ∷ bs)

  -- Every part but the last.
  unfoldable pub label_parts : Pseudonyms → List Bytes → List Bytes × Pseudonyms
  label_parts s [] = ([], s)
  label_parts s (last ∷ []) = (last ∷ [], s)
  label_parts s (part ∷ next ∷ rest) =
      let first = label_part s part in
      let later = label_parts first.1 (next ∷ rest) in (first.0 ∷ later.0, later.1)

  -- `hostname` after the split.
  unfoldable pub hostname_parts : Pseudonyms → Bytes → List Bytes → Bytes × Pseudonyms
  hostname_parts s name [] = label s name
  hostname_parts s name (only ∷ []) = label s name
  hostname_parts s name (part ∷ next ∷ rest) =
      let mapped = label_parts s (part ∷ next ∷ rest) in (join_dots mapped.0, mapped.1)

  unfoldable pub hostname : Pseudonyms → Bytes → Bytes × Pseudonyms
  hostname s name = hostname_parts s name (split_dots name)
