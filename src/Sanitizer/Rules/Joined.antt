-- ===== src/Sanitizer/Rules/Joined.antt =====
-- The terms of the display filter that tshark_plan joins.
use mathlib.Core.List.{append_assoc, append-nil}
use pcap_server.Anonymize.Names.{member_text}
use pcap_server.Sanitizer.Texts.{codes}
use pcap_server.Prelude.{
  ◌≡◌, refl, sym, ap, ◌∙◌, true, List, [], ◌∷◌, ◌++◌, some, Text, bytes_eq, bytes_eq→eq, Bool-cases,
  ◌⊎◌, inl, inr,
}
use pcap_server.Sanitizer.Rules.{join_or, filter_of}

-- A term of a display filter: it stands at the filter's start or behind " or ", and at its end or in
-- front of " or ".
abbrev pub IsTerm : Text → Text → Type 0
IsTerm t text =
    (before : Text) × (after : Text) × (text ≡ before ++ t ++ after)
    × ((before ≡ []) ⊎ ((first : Text) × (before ≡ first ++ codes " or ")))
    × ((after ≡ []) ⊎ ((rest : Text) × (after ≡ codes " or " ++ rest)))

IsTerm-behind : (t x text : Text) → IsTerm x text → IsTerm x (t ++ codes " or " ++ text)
IsTerm-behind t x text (before, after, e, starts, ends) = (
  t ++ codes " or " ++ before,
  after,
  ap (λ z. t ++ codes " or " ++ z) e
      ∙ sym (append_assoc (t ++ codes " or ") (before ++ x) after)
      ∙ ap (λ z. z ++ after) (sym (append_assoc (t ++ codes " or ") before x)),
  elim starts [
    | inl none_before ↦
        inr (t, ap (λ z. t ++ codes " or " ++ z) none_before ∙ append-nil (t ++ codes " or "))
    | inr (first, behind) ↦ inr (
      t ++ codes " or " ++ first,
      ap (λ z. t ++ codes " or " ++ z) behind
          ∙ sym (append_assoc (t ++ codes " or ") first (codes " or ")),
    )
  ],
  ends,
)

IsTerm-join_or : (x : Text) (ts : List Text) → member_text x ts ≡ true → IsTerm x (join_or ts)
unfolding join_or
IsTerm-join_or x [] h = cc h
IsTerm-join_or x (t ∷ []) h = elim (Bool-cases (bytes_eq x t)) [
  | inl same ↦ ([], [], sym (bytes_eq→eq x t same) ∙ sym (append-nil x), inl refl, inl refl)
  | inr other ↦ cc (rw other at h)
]
IsTerm-join_or x (t ∷ u ∷ rest) h = elim (Bool-cases (bytes_eq x t)) [
  | inl same ↦
      let e : t ≡ x = sym (bytes_eq→eq x t same) in
      (
        [],
        codes " or " ++ join_or (u ∷ rest),
        ap (λ z. z ++ codes " or " ++ join_or (u ∷ rest)) e
            ∙ append_assoc x (codes " or ") (join_or (u ∷ rest)),
        inl refl,
        inr (join_or (u ∷ rest), refl),
      )
  | inr other ↦ IsTerm-behind t x (join_or (u ∷ rest)) (IsTerm-join_or x (u ∷ rest) (rw other at h))
]

pub IsTerm-filter_of :
    (x : Text) (ts : List Text)
    → member_text x ts ≡ true
    → (text : Text) × (filter_of ts ≡ some text) × IsTerm x text
unfolding filter_of
IsTerm-filter_of x [] h = cc h
IsTerm-filter_of x (t ∷ ts) h = (join_or (t ∷ ts), refl, IsTerm-join_or x (t ∷ ts) h)
