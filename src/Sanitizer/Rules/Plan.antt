-- ===== src/Sanitizer/Rules/Plan.antt =====
-- The rules by field, and the display filter that covers them.
use pcap_server.Anonymize.Names.{member_text}
use pcap_server.Prelude.{
  ◌≡◌, refl, sym, ap, subst, ◌∙◌, Bool, true, false, List, [], ◌∷◌, ◌++◌, Option, none, some,
  if◌then◌else◌, Text, Dict, lookup, store, bytes_eq, bytes_eq→eq, bytes_eq_refl, lookup-store_same,
  lookup-store_other, All, Some, here, there, Bool-cases, inl, inr, arith,
}
use pcap_server.Sanitizer.Rules.{
  SanitizeOptions, Rule, rules, add_rule, group_rules, rules_by_field, FieldCatalog, rule_selected,
  any_selected, field_terms, plan_terms, filter_of, tshark_plan,
}
use pcap_server.Sanitizer.Conditions.{rules_for}
use pcap_server.Sanitizer.Rules.Joined.{IsTerm, IsTerm-filter_of}

-- A rule among some rules.
abbrev pub Among : Rule → List Rule → Type 0
Among r = Some (λ q. q ≡ r)

Among-append : (r : Rule) (xs ys : List Rule) → Among r xs → Among r (xs ++ ys)
Among-append r [] ys h = elim h [ ]
Among-append r (x ∷ xs) ys (here h) = here h
Among-append r (x ∷ xs) ys (there h) = there (Among-append r xs ys h)

Among-last : (r : Rule) (xs : List Rule) → Among r (xs ++ r ∷ [])
Among-last r [] = here refl
Among-last r (x ∷ xs) = there (Among-last r xs)

-- A table that has a rule under its field.
abbrev Listed : Dict (List Rule) → Rule → Type 0
Listed table r = (rs : List Rule) × (lookup table r.field ≡ some rs) × Among r rs

abbrev stored : Dict (List Rule) → Rule → Option (List Rule) → Dict (List Rule)
stored table s o = elim o [
  | none ↦ store table s.field (s ∷ [])
  | some earlier ↦ store table s.field (earlier ++ s ∷ [])
]

-- Adding a rule lists it,
Listed-added :
    (table : Dict (List Rule)) (s : Rule) (o : Option (List Rule)) → Listed (stored table s o) s
Listed-added table s none = (s ∷ [], lookup-store_same table s.field (s ∷ []), here refl)
Listed-added table s (some earlier) =
    (earlier ++ s ∷ [], lookup-store_same table s.field (earlier ++ s ∷ []), Among-last s earlier)

-- and keeps those that were listed.
Listed-kept :
    (table : Dict (List Rule)) (s r : Rule) (o : Option (List Rule))
    → lookup table s.field ≡ o
    → Listed table r
    → Listed (stored table s o) r
Listed-kept table s r o e (rs, found, among) = elim (Bool-cases (bytes_eq r.field s.field)) [
  | inl same ↦ same_field o e (bytes_eq→eq r.field s.field same)
  | inr apart ↦ other_field o apart
]
  where
    same_field :
        (o : Option (List Rule))
        → lookup table s.field ≡ o
        → r.field ≡ s.field
        → Listed (stored table s o) r
    same_field none e same = cc (found, e, ap (lookup table) same)
    same_field (some earlier) e same =
        let the_rules : rs ≡ earlier = cc (found, e, ap (lookup table) same) in
        (
          earlier ++ s ∷ [],
          ap (lookup (store table s.field (earlier ++ s ∷ []))) same
              ∙ lookup-store_same table s.field (earlier ++ s ∷ []),
          Among-append r earlier (s ∷ []) (subst (Among r) the_rules among),
        )

    other_field :
        (o : Option (List Rule)) → bytes_eq r.field s.field ≡ false → Listed (stored table s o) r
    other_field none apart =
        (rs, lookup-store_other table s.field r.field (s ∷ []) apart ∙ found, among)
    other_field (some earlier) apart =
        (rs, lookup-store_other table s.field r.field (earlier ++ s ∷ []) apart ∙ found, among)

group_rules-kept :
    (table : Dict (List Rule)) (rs : List Rule) (r : Rule)
    → Listed table r
    → Listed (group_rules table rs) r
unfolding group_rules add_rule
group_rules-kept table [] r h = h
group_rules-kept table (s ∷ rs) r h =
    group_rules-kept (add_rule table s) rs r (Listed-kept table s r (lookup table s.field) refl h)

group_rules-Listed :
    (table : Dict (List Rule)) (rs : List Rule) → All (Listed (group_rules table rs)) rs
unfolding group_rules add_rule
group_rules-Listed table [] = tt
group_rules-Listed table (s ∷ rs) = (
  group_rules-kept (add_rule table s) rs s (Listed-added table s (lookup table s.field)),
  group_rules-Listed (add_rule table s) rs,
)

module _ (o : SanitizeOptions) (c : FieldCatalog) where
  any_selected-Among :
      (r : Rule) (rs : List Rule) → Among r rs → rule_selected o r ≡ true → any_selected o rs ≡ true
  unfolding any_selected
  any_selected-Among r [] h e = elim h [ ]
  any_selected-Among r (q ∷ rs) (here same) e =
      let first : rule_selected o q ≡ true = ap (rule_selected o) same ∙ e in rw first refl
  any_selected-Among r (q ∷ rs) (there h) e = ground (arith, any_selected-Among r rs h e)

  member_text-append :
      (x : Text) (xs ys : List Text) → member_text x xs ≡ true → member_text x (xs ++ ys) ≡ true
  member_text-append x [] ys h = cc h
  member_text-append x (y ∷ xs) ys h = elim (Bool-cases (bytes_eq x y)) [
    | inl same ↦ rw same refl
    | inr other ↦ rw other (member_text-append x xs ys (rw other at h))
  ]

  -- An entry's place among the terms.
  abbrev terms_of : Text → List Rule → List Text → Option Text → List Text
  terms_of field rs later known = elim known [
    | none ↦ later
    | some kind ↦ if any_selected o rs then field ∷ later else later
  ]

  terms_of-first :
      (field : Text) (rs : List Rule) (later : List Text) (known : Option Text) (kind : Text)
      → known ≡ some kind
      → any_selected o rs ≡ true
      → member_text field (terms_of field rs later known) ≡ true
  terms_of-first field rs later none kind e h = cc e
  terms_of-first field rs later (some k) kind e h =
      let same = bytes_eq_refl field in rw (h, same) refl

  terms_of-later :
      (x field : Text) (rs : List Rule) (later : List Text) (known : Option Text)
      → member_text x later ≡ true
      → member_text x (terms_of field rs later known) ≡ true
  terms_of-later x field rs later none h = h
  terms_of-later x field rs later (some k) h = shown (any_selected o rs)
    where
      shown : (b : Bool) → member_text x (if b then field ∷ later else later) ≡ true
      shown true = ground (arith, h)
      shown false = h

  field_terms-Listed :
      (table : Dict (List Rule)) (r : Rule) (kind : Text)
      → Listed table r
      → rule_selected o r ≡ true
      → lookup c.types r.field ≡ some kind
      → member_text r.field (field_terms o c table) ≡ true
  unfolding field_terms
  field_terms-Listed [] r kind (rs, found, among) e known = cc found
  field_terms-Listed ((field, qs) ∷ rest) r kind (rs, found, among) e known =
      elim (Bool-cases (bytes_eq r.field field)) [
        | inl same ↦
            let the_field = bytes_eq→eq r.field field same in
            let the_rules : qs ≡ rs = cc (rw same at found) in
            subst
              (λ x.
                member_text x (terms_of field qs (field_terms o c rest) (lookup c.types field))
                ≡ true)
              (sym the_field)
              (terms_of-first field qs (field_terms o c rest) (lookup c.types field) kind
                (ap (lookup c.types) (sym the_field) ∙ known)
                (any_selected-Among r qs (subst (Among r) (sym the_rules) among) e))
        | inr other ↦
            terms_of-later r.field field qs (field_terms o c rest) (lookup c.types field)
              (field_terms-Listed rest r kind (rs, rw other at found, among) e known)
      ]

All-Among : (P : Rule → Type 0) (rs : List Rule) (r : Rule) → All P rs → Among r rs → P r
All-Among P [] r h a = elim a [ ]
All-Among P (q ∷ rs) r h (here same) = subst P same h.0
All-Among P (q ∷ rs) r h (there a) = All-Among P rs r h.1 a

rules_for-Among :
    (table : Dict (List Rule)) (r : Rule)
    → table ≡ rules_by_field
    → Listed table r
    → Among r (rules_for r.field)
unfolding rules_for
rules_for-Among table r e (rs, found, among) =
    let here_too : lookup rules_by_field r.field ≡ some rs =
      ap (λ t. lookup t r.field) (sym e) ∙ found in
    subst (λ known. Among r (elim known [ none ↦ [] | some qs ↦ qs ])) (sym here_too) among

-- A rule of RULES is found under its field when a packet is rewritten; and, if the options select
-- it and do not strip the payload, and the installed tshark knows its field, then tshark_plan makes
-- a display filter and the field is a term of it.
pub rules-tshark_plan :
    (o : SanitizeOptions) (c : FieldCatalog) (r : Rule) (kind : Text)
    → Among r rules
    → rule_selected o r ≡ true
    → lookup c.types r.field ≡ some kind
    → o.strip_payload ≡ false
    → Among r (rules_for r.field)
      × (text : Text) × (tshark_plan o c ≡ some text)
      × IsTerm r.field text
unfolding tshark_plan plan_terms rules_by_field
rules-tshark_plan o c r kind among selected known whole =
    let listed : Listed rules_by_field r =
      All-Among (Listed rules_by_field) rules r (group_rules-Listed [] rules) among in
    let term = field_terms-Listed o c rules_by_field r kind listed selected known in
    let (text, made, is_term) = IsTerm-filter_of r.field (plan_terms o c) (
      member_text-append o c r.field (field_terms o c rules_by_field ++ _) _
        (member_text-append o c r.field (field_terms o c rules_by_field) _ term)) in
    (
      rules_for-Among rules_by_field r refl listed,
      text,
      ap (λ b. if b then none else filter_of (plan_terms o c)) whole ∙ made,
      is_term,
    )
