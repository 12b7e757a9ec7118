-- ===== src/Bpf/Parse/Alternatives.antt =====
-- The alternatives of an "or" that `_parse_alternative` all reads.
use pcap_server.Prelude.{
  ℕ, ◌≡◌, refl, sym, true, false, List, [], ◌∷◌, Option, none, some, Text, arith, All, bytes_eq,
}
use mathlib.Core.Option.{some-injective}
use pcap_server.Anonymize.Names.{member_text}
use pcap_server.Bpf.{Alternative}
use pcap_server.Bpf.Tokens.{Tokens, or_words, and_words, splits}
use pcap_server.Bpf.Parse.{parse_alternative, parse_all}
use pcap_server.Bpf.Parse.Depth.{top}
use pcap_server.Bpf.Parse.Terms.{not_reserved}
use pcap_server.Bpf.Parse.Readings.{top-parse_alternative}

or_member : (n : ℕ) (t : Text) → splits or_words n t ≡ true → member_text t or_words ≡ true
unfolding splits
or_member n t h = ground (arith, h)

and_member : (n : ℕ) (t : Text) → member_text t and_words ≡ false → splits and_words n t ≡ false
unfolding splits
and_member n t h = ground (arith, h)

-- An operator of the one kind is none of the other.
pub and_no_or : (n : ℕ) (t : Text) → splits or_words n t ≡ true → splits and_words n t ≡ false
unfolding bytes_eq
and_no_or n t h =
    let e = not_reserved (λ w. member_text w or_words) and_words refl t (or_member n t h) in
    and_member n t e

pub parse_all-cons :
    (g : Tokens) (gs : List Tokens) (as' : List Alternative)
    → parse_all (g ∷ gs) ≡ some as'
    → (a : Alternative) × (rest : List Alternative) × (parse_alternative g ≡ some a)
      × (parse_all gs ≡ some rest)
      × (as' ≡ a ∷ rest)
unfolding parse_all
parse_all-cons g gs as' h = cases (parse_alternative g) (parse_all gs) h
  where
    cases :
        (o : Option Alternative) (later : Option (List Alternative))
        → elim o [ none ↦ none | some a ↦ elim later [ none ↦ none | some rest ↦ some (a ∷ rest) ] ]
          ≡ some as'
        → (a : Alternative) × (rest : List Alternative) × (o ≡ some a)
          × (later ≡ some rest)
          × (as' ≡ a ∷ rest)
    cases none later k = cc k
    cases (some a) none k = cc k
    cases (some a) (some rest) k = (a, rest, refl, refl, sym (some-injective _ _ k))

pub parse_all-top :
    (gs : List Tokens) (as' : List Alternative)
    → parse_all gs ≡ some as'
    → All (λ g. top and_words 0 g ≡ false) gs
parse_all-top [] as' h = tt
parse_all-top (g ∷ gs) as' h =
    let (a, rest, e, f, same) = parse_all-cons g gs as' h in
    (top-parse_alternative g a e, parse_all-top gs rest f)
