-- ===== src/Bpf/Parse/Sound.antt =====
-- What `_collect` and `structural_check` make of a filter, against every packet that the filter
-- takes under some reading.
use pcap_server.Prelude.{
  ℕ, zero, suc, ◌≡◌, refl, sym, ap, subst, Bool, true, false, List, [], ◌∷◌, ◌++◌, Option, none,
  some, Text, inl, inr, if◌then◌else◌, All, All-join, Some, here, there, length, any_of,
  Option-cases,
}
use mathlib.Core.Option
use mathlib.Core.Option.{some-injective}
use pcap_server.Bpf.{Alternative, Constraint, bpf_matches_nothing, structural_verdict}
use pcap_server.Bpf.Search.{Packet, MeetsTerm, Meets}
use pcap_server.Bpf.Warnings.{structural_verdict_nothing}
use pcap_server.Bpf.Tokens.{
  Tokens, Groups, or_words, and_words, parts, split_top_level, strip_parens, tokenize,
}
use pcap_server.Bpf.Parse.{
  parse_term, parse_alternative, parse_all, one_constraint, one_term, extend_all, collect_term,
  collect_and, collect_or, collect_stripped, collect, Found, tokens_eq, is_negation, parse_tokens,
  parse_constraints, structural_check,
}
use pcap_server.Bpf.Parse.PortTerms.{Means}
use pcap_server.Bpf.Parse.Senses.{MeetsTerm-Means}
use pcap_server.Bpf.Parse.Depth.{top, cut, split_from-cut, top-cut_one}
use pcap_server.Bpf.Parse.Terms.{plain-parse_term}
use pcap_server.Bpf.Parse.Reads.{Reads}
use pcap_server.Bpf.Parse.Readings.{
  Groups-top, Reads-strip_parens, Reads-plain, Reads-or_groups, Reads-and_groups,
}
use pcap_server.Bpf.Parse.Alternatives.{and_no_or, parse_all-cons, parse_all-top}

-- A packet meets whatever is found.
abbrev MeetsFound : Packet → Found → Type 0
MeetsFound p found = (cs : List Constraint) → found ≡ some cs → All (Meets p) cs

MeetsFound-some : (p : Packet) (cs : List Constraint) → All (Meets p) cs → MeetsFound p (some cs)
MeetsFound-some p cs m ds e = subst (All (Meets p)) (some-injective _ _ e) m

module _ {ℓ} (Term : Packet → Tokens → Type ℓ)
    (reads_term : (p : Packet) (ts : Tokens) (a : Alternative)
      → parse_term ts ≡ some a
      → Term p ts
      → MeetsTerm p a)
    (p : Packet) where
  MeetsTerm-parse_alternative :
      (g : Tokens) (a : Alternative) → parse_alternative g ≡ some a → Reads Term p g → MeetsTerm p a
  unfolding parse_alternative
  MeetsTerm-parse_alternative g a h r = reads_term p (strip_parens g) a h (
      Reads-plain Term p (strip_parens g) (plain-parse_term (strip_parens g) a h)
        (Reads-strip_parens Term p g r))

  MeetsTerm-parse_all :
      (gs : List Tokens) (as' : List Alternative)
      → parse_all gs ≡ some as'
      → Some (Reads Term p) gs
      → Some (MeetsTerm p) as'
  MeetsTerm-parse_all [] as' h s = elim s [ ]
  MeetsTerm-parse_all (g ∷ gs) as' h (here r) =
      let (a, rest, e, f, same) = parse_all-cons g gs as' h in
      subst (Some (MeetsTerm p)) (sym same) (here (MeetsTerm-parse_alternative g a e r))
  MeetsTerm-parse_all (g ∷ gs) as' h (there s) =
      let (a, rest, e, f, same) = parse_all-cons g gs as' h in
      subst (Some (MeetsTerm p)) (sym same) (there (MeetsTerm-parse_all gs rest f s))

  -- A constraint from each reading: of a term, and of alternatives.
  Meets-one_term : (ts : Tokens) → Reads Term p ts → All (Meets p) (one_term (parse_alternative ts))
  unfolding one_term
  Meets-one_term ts r = elim (Option-cases (parse_alternative ts)) [
    | inl e ↦ subst (λ o. All (Meets p) (one_term o)) (sym e) tt
    | inr (a, e) ↦
        subst (λ o. All (Meets p) (one_term o)) (sym e)
          (here (MeetsTerm-parse_alternative ts a e r), tt)
  ]

  Meets-one_constraint :
      (ts : Tokens)
      → Reads Term p ts
      → All (Meets p) (one_constraint (parse_all (parts (cut or_words 0 ts))))
  unfolding one_constraint
  Meets-one_constraint ts r =
      let gs = parts (cut or_words 0 ts) in
      elim (Option-cases (parse_all gs)) [
        | inl e ↦ subst (λ o. All (Meets p) (one_constraint o)) (sym e) tt
        | inr (as', e) ↦
            let tops = parse_all-top gs as' e in
            let whole = Groups-top or_words and_words 0 ts and_no_or tops.1 tops.0 in
            subst (λ o. All (Meets p) (one_constraint o)) (sym e)
              (MeetsTerm-parse_all gs as' e (Reads-or_groups Term p ts whole r), tt)
      ]

  module _ (collect_group : Tokens → Found)
      (meets_group : (g : Tokens) → Reads Term p g → MeetsFound p (collect_group g)) where
    Meets-extend_all :
        (gs : List Tokens) → All (Reads Term p) gs → MeetsFound p (extend_all collect_group gs)
    unfolding extend_all
    Meets-extend_all [] h = MeetsFound-some p [] tt
    Meets-extend_all (g ∷ gs) h =
        joined (collect_group g) (extend_all collect_group gs) (meets_group g h.0)
          (Meets-extend_all gs h.1)
      where
        joined :
            (o later : Found)
            → MeetsFound p o
            → MeetsFound p later
            → MeetsFound p (elim o [
              | none ↦ none
              | some cs ↦ elim later [ none ↦ none | some ds ↦ some (cs ++ ds) ]
            ])
        joined none later m n = λ ds e. cc e
        joined (some cs) none m n = λ ds e. cc e
        joined (some cs) (some ds) m n =
            MeetsFound-some p (cs ++ ds) (All-join (Meets p) cs ds (m cs refl) (n ds refl))

    Meets-collect_term :
        (ts : Tokens) → Reads Term p ts → MeetsFound p (collect_term collect_group ts)
    unfolding collect_term
    Meets-collect_term ts r = by_brackets (tokens_eq (strip_parens ts) ts)
      where
        by_brackets :
            (b : Bool)
            → MeetsFound p (elim b [
              | false ↦ collect_group (strip_parens ts)
              | true ↦ some (one_term (parse_alternative ts))
            ])
        by_brackets false = meets_group (strip_parens ts) (Reads-strip_parens Term p ts r)
        by_brackets true = MeetsFound-some p (one_term (parse_alternative ts)) (Meets-one_term ts r)

    Meets-collect_and :
        (ts : Tokens) (o : Option Groups)
        → split_top_level and_words ts ≡ o
        → top or_words 0 ts ≡ false
        → Reads Term p ts
        → MeetsFound p (collect_and collect_group ts o)
    unfolding collect_and split_top_level
    Meets-collect_and ts none e h r = MeetsFound-some p [] tt
    Meets-collect_and ts (some (g, [])) e h r = Meets-collect_term ts r
    Meets-collect_and ts (some (g, k ∷ ks)) e h r =
        let same = split_from-cut and_words 0 ts (g, k ∷ ks) e in
        Meets-extend_all (g ∷ k ∷ ks)
          (subst (All (Reads Term p)) (ap parts (sym same)) (Reads-and_groups Term p ts h r))

    Meets-collect_or :
        (ts : Tokens) (o : Option Groups)
        → split_top_level or_words ts ≡ o
        → Reads Term p ts
        → MeetsFound p (collect_or collect_group ts o)
    unfolding collect_or split_top_level
    Meets-collect_or ts none e r = MeetsFound-some p [] tt
    Meets-collect_or ts (some (g, [])) e r =
        let same = split_from-cut or_words 0 ts (g, []) e in
        Meets-collect_and ts (split_top_level and_words ts) refl
          (top-cut_one or_words 0 ts (ap (λ c. c.1) (sym same))) r
    Meets-collect_or ts (some (g, k ∷ ks)) e r =
        let same = split_from-cut or_words 0 ts (g, k ∷ ks) e in
        MeetsFound-some p (one_constraint (parse_all (g ∷ k ∷ ks))) (
          subst (λ gs. All (Meets p) (one_constraint (parse_all gs))) (ap parts (sym same))
            (Meets-one_constraint ts r))

    Meets-collect_stripped :
        (ts : Tokens) → Reads Term p ts → MeetsFound p (collect_stripped collect_group ts)
    unfolding collect_stripped
    Meets-collect_stripped [] r = MeetsFound-some p [] tt
    Meets-collect_stripped (t ∷ ts) r =
        Meets-collect_or (t ∷ ts) (split_top_level or_words (t ∷ ts)) refl r

  Meets-collect : (k : ℕ) (ts : Tokens) → Reads Term p ts → MeetsFound p (collect k ts)
  unfolding collect
  Meets-collect zero ts r = λ cs e. cc e
  Meets-collect (suc k) ts r =
      Meets-collect_stripped (collect k) (Meets-collect k) (strip_parens ts)
        (Reads-strip_parens Term p ts r)

-- A packet that meets a filter, in whatever way its "and", "or" and brackets are read, meets every
-- constraint that _parse_constraints takes from the filter's tokens. A port term is met as its
-- words say: by a packet of its protocol, if it names one, with a port in its range at the end that
-- it names, or at either end. Any other term is met as `Other` says, whatever that is.
pub Meets-parse_tokens {ℓ} :
    (Other : Packet → Tokens → Type ℓ) (p : Packet) (ts : Tokens) (cs : List Constraint)
    → parse_tokens ts ≡ some (some cs)
    → Reads (Means Other) p ts
    → All (Meets p) cs
unfolding parse_tokens
Meets-parse_tokens Other p [] cs h r = cc h
Meets-parse_tokens Other p (t ∷ ts) cs h r =
    unnegated (any_of is_negation (t ∷ ts)) (collect (suc (length (t ∷ ts))) (t ∷ ts)) h
      (Meets-collect (Means Other) (MeetsTerm-Means Other) p (suc (length (t ∷ ts))) (t ∷ ts) r)
  where
    unnegated :
        (b : Bool) (found : Found)
        → (if b then some none else Option.map some found) ≡ some (some cs)
        → MeetsFound p found
        → All (Meets p) cs
    unnegated true found k m = cc k
    unnegated false none k m = cc k
    unnegated false (some ds) k m = m cs (some-injective _ _ k)

-- Where structural_check warns that a filter matches nothing, no packet meets the filter, in
-- whatever way its "and", "or" and brackets are read. A port term is met as its words say, and any
-- other term as `Other` says, whatever that is.
pub structural_check-Reads {ℓ} :
    (Other : Packet → Tokens → Type ℓ) (lower : Text → Text) (expr : Text)
    → structural_check lower expr ≡ some bpf_matches_nothing
    → (p : Packet) → ¬ Reads (Means Other) p (tokenize lower expr)
unfolding structural_check parse_constraints structural_verdict
structural_check-Reads Other lower expr h p r =
    by_result (parse_tokens (tokenize lower expr)) refl h
  where
    by_result :
        (o : Option Found)
        → parse_tokens (tokenize lower expr) ≡ o
        → Option.map structural_verdict o ≡ some bpf_matches_nothing
        → ⊥
    by_result none e k = cc k
    by_result (some none) e k = cc k
    by_result (some (some cs)) e k =
        structural_verdict_nothing cs (some-injective _ _ k) p
          (Meets-parse_tokens Other p (tokenize lower expr) cs e r)
