-- ===== src/Bpf/Parse/Terms.antt =====
-- The terms that `_parse_alternative` reads have no bracket and no operator among their tokens.
use pcap_server.Prelude.{
  ◌≡◌, refl, ap, subst, Bool, true, false, not, List, [], ◌∷◌, Option, none, some, Text, arith,
  bytes_eq, bytes_eq→eq, Bool-cases, inl, inr, if◌then◌else◌, all_of,
}
use pcap_server.Anonymize.Names.{member_text}
use pcap_server.Sanitizer.Texts.{codes}
use pcap_server.Bpf.{Protocol, Alternative}
use pcap_server.Bpf.Tokens.{
  Tokens, opening, closing, or_words, and_words, next_depth, is_bracket, splits,
}
use pcap_server.Bpf.Parse.{
  number_of, digits_value, split_dash, range_of, ports_named, parse_port, parse_slots, parse_term,
  named_protocol, layer_words,
}
use pcap_server.Bpf.Parse.Depth.{top}

-- What a term does not have among its tokens.
abbrev pub reserved : List Text
reserved = opening ∷ closing ∷ codes "or" ∷ codes "||" ∷ codes "and" ∷ codes "&&" ∷ []

abbrev pub plain : Tokens → Bool
plain ts = all_of (λ t. not (member_text t reserved)) ts

-- A test that every reserved token fails.
pub not_reserved :
    (f : Text → Bool) (ws : List Text)
    → all_of (λ w. not (f w)) ws ≡ true
    → (t : Text) → f t ≡ true
    → member_text t ws ≡ false
not_reserved f [] h t k = refl
not_reserved f (w ∷ ws) h t k = elim (Bool-cases (bytes_eq t w)) [
  | inl same ↦
      let e : f w ≡ true = subst (λ u. f u ≡ true) (bytes_eq→eq t w same) k in ground (arith, h, e)
  | inr other ↦ let rest = not_reserved f ws (ground (arith, h)) t k in rw (other, rest)
]

abbrev is_some {ℓ} : {A : Type ℓ} → Option A → Bool
is_some none = false
is_some (some a) = true

-- What follows from a result, in each case of the test that chose it.
result-if {ℓ κ} :
    {A : Type ℓ} {G : Type κ} (b : Bool) (x y : Option A)
    → (b ≡ true → is_some x ≡ true → G)
    → (b ≡ false → is_some y ≡ true → G)
    → is_some (if b then x else y) ≡ true
    → G
result-if true x y f g h = f refl h
result-if false x y f g h = g refl h

result-bind {ℓ κ} :
    {A : Type ℓ} {B : Type κ} (o : Option A) (f : A → Option B)
    → is_some (elim o [ none ↦ none | some a ↦ f a ]) ≡ true
    → is_some o ≡ true
result-bind none f h = h
result-bind (some a) f h = refl

abbrev is_word : Text → Text → Bool
is_word word t = bytes_eq t word

reserved-word :
    (word : Text)
    → all_of (λ w. not (is_word word w)) reserved ≡ true
    → (t : Text) → bytes_eq t word ≡ true
    → member_text t reserved ≡ false
reserved-word word h t k = not_reserved (is_word word) reserved h t k

reserved-number : (t : Text) → is_some (number_of t) ≡ true → member_text t reserved ≡ false
unfolding number_of digits_value
reserved-number t h = not_reserved (λ t. is_some (number_of t)) reserved refl t h

reserved-range : (t : Text) → is_some (range_of t) ≡ true → member_text t reserved ≡ false
unfolding range_of split_dash
reserved-range t h = not_reserved (λ t. is_some (range_of t)) reserved refl t h

reserved-protocol : (t : Text) → is_some (named_protocol t) ≡ true → member_text t reserved ≡ false
unfolding named_protocol bytes_eq
reserved-protocol t h = not_reserved (λ t. is_some (named_protocol t)) reserved refl t h

plain-cons :
    (t : Text) (ts : Tokens)
    → member_text t reserved ≡ false
    → plain ts ≡ true
    → plain (t ∷ ts) ≡ true
plain-cons t ts h k = rw (h, k)

-- A keyword and a value that give ports.
plain-ports_named :
    (keyword value : Text)
    → is_some (ports_named keyword value) ≡ true
    → plain (keyword ∷ value ∷ []) ≡ true
unfolding ports_named bytes_eq
plain-ports_named keyword value h =
    result-if (bytes_eq keyword (codes "port")) _ _
      (λ port found.
        plain-cons keyword (value ∷ []) (reserved-word (codes "port") refl keyword port) (
          plain-cons value [] (reserved-number value (result-bind (number_of value) _ found)) refl))
      (λ other.
        result-if (bytes_eq keyword (codes "portrange")) _ _
          (λ range found.
            plain-cons keyword (value ∷ []) (reserved-word (codes "portrange") refl keyword range)
              (plain-cons value [] (reserved-range value found) refl))
          (λ neither found. cc found))
      h

plain-parse_port :
    (proto : Option Protocol) (src dst : Bool) (ts : Tokens)
    → is_some (parse_port proto src dst ts) ≡ true
    → plain ts ≡ true
unfolding parse_port
plain-parse_port proto src dst [] h = cc h
plain-parse_port proto src dst (t ∷ []) h = cc h
plain-parse_port proto src dst (t ∷ u ∷ []) h =
    plain-ports_named t u (result-bind (ports_named t u) _ h)
plain-parse_port proto src dst (t ∷ u ∷ v ∷ ts) h = cc h

plain-parse_slots :
    (proto : Option Protocol) (ts : Tokens)
    → is_some (parse_slots proto ts) ≡ true
    → plain ts ≡ true
unfolding parse_slots bytes_eq
plain-parse_slots proto [] h = cc h
plain-parse_slots proto (t ∷ ts) h =
    result-if (bytes_eq t (codes "src")) _ _
      (λ src found.
        plain-cons t ts (reserved-word (codes "src") refl t src)
          (plain-parse_port proto true false ts found))
      (λ other.
        result-if (bytes_eq t (codes "dst")) _ _
          (λ dst found.
            plain-cons t ts (reserved-word (codes "dst") refl t dst)
              (plain-parse_port proto false true ts found))
          (λ neither found. plain-parse_port proto true true (t ∷ ts) found))
      h

plain-parse_term_some : (ts : Tokens) → is_some (parse_term ts) ≡ true → plain ts ≡ true
unfolding parse_term
plain-parse_term_some [] h = cc h
plain-parse_term_some (t ∷ ts) h = by_protocol (named_protocol t) refl h
  where
    by_protocol :
        (o : Option Protocol)
        → named_protocol t ≡ o
        → is_some (elim o [
          | some proto ↦ parse_slots (some proto) ts
          | none ↦ if member_text t layer_words then none else parse_slots none (t ∷ ts)
        ])
          ≡ true
        → plain (t ∷ ts) ≡ true
    by_protocol (some proto) e k =
        plain-cons t ts (reserved-protocol t (ap is_some e)) (plain-parse_slots (some proto) ts k)
    by_protocol none e k =
        result-if (member_text t layer_words) _ _ (λ layer found. cc found)
          (λ other found. plain-parse_slots none (t ∷ ts) found) k

pub plain-parse_term : (ts : Tokens) (a : Alternative) → parse_term ts ≡ some a → plain ts ≡ true
plain-parse_term ts a h = plain-parse_term_some ts (ap is_some h)

-- Among plain tokens there is no operator, and no bracket changes the depth.
not_among :
    (t : Text)
    → member_text t reserved ≡ false
    → (bytes_eq t opening ≡ false)
      × (bytes_eq t closing ≡ false)
      × (member_text t or_words ≡ false)
      × (member_text t and_words ≡ false)
not_among t h = (ground (arith, h), ground (arith, h), ground (arith, h), ground (arith, h))

pub top-plain :
    (ts : Tokens) → plain ts ≡ true → (top or_words 0 ts ≡ false) × (top and_words 0 ts ≡ false)
unfolding top splits next_depth is_bracket
top-plain [] h = (refl, refl)
top-plain (t ∷ ts) h =
    let rest = top-plain ts (ground (arith, h)) in
    let (o, c, or', and') = not_among t (ground (arith, h)) in
    let first = rest.0 in let second = rest.1 in (rw (o, c, or', first), rw (o, c, and', second))
