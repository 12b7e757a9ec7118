-- ===== src/Anonymize/Names/Hosts.antt =====
-- `hostname`: the split at the dots, the labels, and the joining.
use mathlib.Core.List.{append_assoc}
use pcap_server.Prelude.{
  ℕ, ◌≡◌, refl, sym, ap, ap₂, subst, ◌∙◌, Bool, false, List, [], ◌∷◌, ◌++◌, Bytes, ◌==◌, length,
  length-append, arith, Bool-cases, inl, inr, any_of,
}
use pcap_server.Anonymize.{Primitives}
use pcap_server.Anonymize.Names.{
  grow, split_dots, join_dots, Pseudonyms, label_part, label_parts, hostname_parts, hostname,
}
use pcap_server.Anonymize.Names.Labels.{IsLabelled, label-Labels, length-plain_label}

-- b"." stands in the bytes.
abbrev pub has_dot : Bytes → Bool
has_dot xs = any_of (λ b. b == 0x2E) xs

-- Lists of parts of the same lengths.
abbrev SameLengths : List Bytes → List Bytes → Type 0
SameLengths [] [] = Unit
SameLengths (x ∷ xs) (y ∷ ys) = (length x ≡ length y) × SameLengths xs ys
SameLengths _ _ = ⊥

split_dots-cases :
    (xs : Bytes) → (part : Bytes) × (parts : List Bytes) × (split_dots xs ≡ part ∷ parts)
unfolding split_dots grow
split_dots-cases [] = ([], [], refl)
split_dots-cases (b ∷ bs) = elim (Bool-cases (b == 0x2E)) [
  | inl dot ↦ ([], split_dots bs, rw dot)
  | inr other ↦ let (part, parts, e) = split_dots-cases bs in (b ∷ part, parts, rw (other, e))
]

split_dots-none : (xs : Bytes) → has_dot xs ≡ false → split_dots xs ≡ xs ∷ []
unfolding split_dots grow
split_dots-none [] h = refl
split_dots-none (b ∷ bs) h =
    let other : (b == 0x2E) ≡ false = ground (arith, h) in
    rw (other, split_dots-none bs (ground (arith, h)))

grow-append :
    (b : ℕ) (part : Bytes) (parts more : List Bytes)
    → grow b ((part ∷ parts) ++ more) ≡ grow b (part ∷ parts) ++ more
unfolding grow
grow-append b part parts more = refl

split_dots-append :
    (front last : Bytes)
    → has_dot last ≡ false
    → split_dots (front ++ 0x2E ∷ last) ≡ split_dots front ++ last ∷ []
unfolding split_dots
split_dots-append [] last h = ap (λ parts. [] ∷ parts) (split_dots-none last h)
split_dots-append (b ∷ bs) last h = elim (Bool-cases (b == 0x2E)) [
  | inl dot ↦ rw (dot, split_dots-append bs last h)
  | inr other ↦
      let (part, parts, e) = split_dots-cases bs in
      rw (other, split_dots-append bs last h, e) (grow-append b part parts (last ∷ []))
]

join_dots-grow :
    (b : ℕ) (part : Bytes) (parts : List Bytes)
    → join_dots (grow b (part ∷ parts)) ≡ b ∷ join_dots (part ∷ parts)
unfolding join_dots grow
join_dots-grow b part [] = refl
join_dots-grow b part (next ∷ parts) = refl

-- Joining undoes splitting.
join_dots-split_dots : (xs : Bytes) → join_dots (split_dots xs) ≡ xs
unfolding join_dots split_dots
join_dots-split_dots [] = refl
join_dots-split_dots (b ∷ bs) = elim (Bool-cases (b == 0x2E)) [
  | inl dot ↦
      let (part, parts, e) = split_dots-cases bs in
      let ih = join_dots-split_dots bs in rw (dot, e) (ap₂ ◌∷◌ (ground arith) (rw e at ih))
  | inr other ↦
      let (part, parts, e) = split_dots-cases bs in
      let ih = join_dots-split_dots bs in
      rw (other, e) (join_dots-grow b part parts ∙ ap (◌∷◌ b) (rw e at ih))
]

join_dots-append :
    (part : Bytes) (parts : List Bytes) (last : Bytes)
    → join_dots ((part ∷ parts) ++ last ∷ []) ≡ join_dots (part ∷ parts) ++ 0x2E ∷ last
unfolding join_dots
join_dots-append part [] last = refl
join_dots-append part (next ∷ parts) last =
    ap (λ rest. part ++ 0x2E ∷ rest) (join_dots-append next parts last)
    ∙ sym (append_assoc part (0x2E ∷ join_dots (next ∷ parts)) (0x2E ∷ last))

length-join_dots :
    (xs ys : List Bytes) → SameLengths xs ys → length (join_dots xs) ≡ length (join_dots ys)
unfolding join_dots
length-join_dots [] [] h = refl
length-join_dots [] (y ∷ ys) h = elim h [ ]
length-join_dots (x ∷ xs) [] h = elim h [ ]
length-join_dots (x ∷ []) (y ∷ []) h = h.0
length-join_dots (x ∷ []) (y ∷ z ∷ ys) h = elim h.1 [ ]
length-join_dots (x ∷ w ∷ xs) (y ∷ []) h = elim h.1 [ ]
length-join_dots (x ∷ w ∷ xs) (y ∷ z ∷ ys) h = omega (
  arith,
  length-append x (0x2E ∷ join_dots (w ∷ xs)),
  length-append y (0x2E ∷ join_dots (z ∷ ys)),
  length-join_dots (w ∷ xs) (z ∷ ys) h.1,
  h.0,
)

module _ (p : Primitives) where
  label_part-IsLabelled :
      (s : Pseudonyms) (part : Bytes)
      → IsLabelled p s
      → (length (label_part p s part).0 ≡ length part) × IsLabelled p (label_part p s part).1
  unfolding label_part
  label_part-IsLabelled s [] h = (refl, h)
  label_part-IsLabelled s (b ∷ bs) h =
      let answer = label-Labels p s (b ∷ bs) h in
      (ap length answer.0 ∙ length-plain_label p s.hash_key (b ∷ bs), answer.1)

  -- What the labels in front of the last become.
  record Mapped (s : Pseudonyms) (part : Bytes) (parts : List Bytes) (last : Bytes) : Type 0 where
    pub first : Bytes
    pub others : List Bytes
    pub same_lengths : SameLengths (first ∷ others) (part ∷ parts)
    pub answer : (label_parts p s ((part ∷ parts) ++ last ∷ [])).0 ≡ (first ∷ others) ++ last ∷ []
    pub labelled : IsLabelled p (label_parts p s ((part ∷ parts) ++ last ∷ [])).1

  label_parts-Mapped :
      (s : Pseudonyms) (part : Bytes) (parts : List Bytes) (last : Bytes)
      → IsLabelled p s
      → Mapped s part parts last
  unfolding label_parts
  label_parts-Mapped s part [] last h =
      let mapped = label_part-IsLabelled s part h in
      record {
        first = (label_part p s part).0;
        others = [];
        same_lengths = (mapped.0, tt);
        answer = refl;
        labelled = mapped.1;
      }
  label_parts-Mapped s part (next ∷ parts) last h =
      let mapped = label_part-IsLabelled s part h in
      let later = label_parts-Mapped (label_part p s part).1 next parts last mapped.1 in
      record {
        first = (label_part p s part).0;
        others = later.first ∷ later.others;
        same_lengths = (mapped.0, later.same_lengths);
        answer = ap (λ rest. (label_part p s part).0 ∷ rest) later.answer;
        labelled = later.labelled;
      }

  several :
      (s : Pseudonyms) (name part : Bytes) (parts : List Bytes) (last : Bytes)
      → hostname_parts p s name ((part ∷ parts) ++ last ∷ []) ≡ (
        join_dots (label_parts p s ((part ∷ parts) ++ last ∷ [])).0,
        (label_parts p s ((part ∷ parts) ++ last ∷ [])).1,
      )
  unfolding hostname_parts
  several s name part [] last = refl
  several s name part (next ∷ parts) last = refl

  -- The stand-in of a name with several labels has the name's length and its last label, whatever
  -- is in the cache, and the cache goes on holding stand-ins.
  pub hostname-last :
      (s : Pseudonyms) (front last : Bytes)
      → IsLabelled p s
      → has_dot last ≡ false
      → ((front' : Bytes) × (length front' ≡ length front)
          × ((hostname p s (front ++ 0x2E ∷ last)).0 ≡ front' ++ 0x2E ∷ last))
        × IsLabelled p (hostname p s (front ++ 0x2E ∷ last)).1
  unfolding hostname
  hostname-last s front last h named =
      let (part, parts, e) = split_dots-cases front in
      let split : split_dots (front ++ 0x2E ∷ last) ≡ (part ∷ parts) ++ last ∷ [] =
        split_dots-append front last named ∙ ap (λ xs. xs ++ last ∷ []) e in
      let m = label_parts-Mapped s part parts last h in
      let whole = ap join_dots (sym e) ∙ join_dots-split_dots front in
      let answer = several s (front ++ 0x2E ∷ last) part parts last in
      let same : hostname_parts p s (front ++ 0x2E ∷ last) (split_dots (front ++ 0x2E ∷ last)) ≡ (
        join_dots (label_parts p s ((part ∷ parts) ++ last ∷ [])).0,
        (label_parts p s ((part ∷ parts) ++ last ∷ [])).1,
      ) =
        ap (hostname_parts p s (front ++ 0x2E ∷ last)) split ∙ answer in
      (
        (
          join_dots (m.first ∷ m.others),
          length-join_dots (m.first ∷ m.others) (part ∷ parts) m.same_lengths ∙ ap length whole,
          ap (λ r. r.0) same ∙ ap join_dots m.answer ∙ join_dots-append m.first m.others last,
        ),
        subst (IsLabelled p) (sym (ap (λ r. r.1) same)) m.labelled,
      )
