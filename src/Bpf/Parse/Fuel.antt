-- ===== src/Bpf/Parse/Fuel.antt =====
-- The fuel of `_collect`'s model, a unit for each token and one more, is enough.
use pcap_server.Prelude.{
  ℕ, zero, suc, ◌+◌, ◌≡◌, ◌≤◌, ◌<◌, refl, sym, ap, ◌∙◌, subst, ◌⊎◌, inl, inr, Bool-cases,
  bytes_eq_refl, Bool, true, false, ◌&&◌, List, [], ◌∷◌, ◌++◌, Option, none, some, Text, arith,
  if◌then◌else◌, All, All-map, length,
}
use pcap_server.Bpf.{Constraint}
use pcap_server.Bpf.Tokens.{
  Tokens, Groups, and_words, or_words, splits, parts, add_token, next_depth, split_top_level,
  balanced, is_wrapped, drop_last, inner, strip_rounds, strip_parens,
}
use pcap_server.Bpf.Parse.{
  parse_alternative, parse_all, one_constraint, one_term, Found, extend_all, tokens_eq,
  collect_term, collect_and, collect_or, collect_stripped, collect,
}
use pcap_server.Bpf.Parse.Depth.{cut, split_from-cut}

-- The tokens of some groups, with one more for each group.
span : List Tokens → ℕ
span [] = 0
span (g ∷ gs) = suc (length g) + span gs

span-add_token :
    (b : Bool) (t : Text) (g : Groups) → span (parts (add_token b t g)) ≡ suc (span (parts g))
unfolding span add_token
span-add_token true t g = omega arith
span-add_token false t g = omega arith

span-cut : (ops : List Text) (d : ℕ) (ts : Tokens) → span (parts (cut ops d ts)) ≡ suc (length ts)
unfolding span cut
span-cut ops d [] = omega arith
span-cut ops d (t ∷ ts) =
    span-add_token (splits ops d t) t (cut ops (next_depth d t) ts)
    ∙ ap suc (span-cut ops (next_depth d t) ts)

All-span : (n : ℕ) (gs : List Tokens) → span gs ≤ n → All (λ g. length g < n) gs
unfolding span
All-span n [] h = tt
All-span n (g ∷ gs) h = (omega (arith, h), All-span n gs (omega (arith, h)))

-- Each of several groups is shorter than the tokens.
All-shorter :
    (ops : List Text) (ts g h : Tokens) (hs : List Tokens)
    → (g, h ∷ hs) ≡ cut ops 0 ts
    → All (λ x. length x < length ts) (g ∷ h ∷ hs)
unfolding span
All-shorter ops ts g h hs e =
    let whole : span (g ∷ h ∷ hs) ≡ suc (length ts) =
      ap (λ c. span (parts c)) e ∙ span-cut ops 0 ts in
    (omega (arith, whole), All-span (length ts) (h ∷ hs) (omega (arith, whole)))

length-drop_last : (ts : Tokens) → length (drop_last ts) ≤ length ts
unfolding drop_last
length-drop_last [] = omega arith
length-drop_last (t ∷ []) = omega arith
length-drop_last (t ∷ u ∷ ts) = omega (arith, length-drop_last (u ∷ ts))

length-inner : (ts : Tokens) → is_wrapped ts ≡ true → length (inner ts) < length ts
unfolding inner is_wrapped
length-inner [] h = cc h
length-inner (t ∷ ts) h = omega (arith, length-drop_last ts)

-- The brackets that come off are tokens.
Shorter : Tokens → Tokens → Type 0
Shorter us ts = (us ≡ ts) ⊎ (length us < length ts)

Shorter-at_most : (us ts : Tokens) → Shorter us ts → length us ≤ length ts
unfolding Shorter
Shorter-at_most us ts (inl same) = let e = ap length same in omega (arith, e)
Shorter-at_most us ts (inr less) = omega (arith, less)

Shorter-strip_rounds : (k : ℕ) (ts : Tokens) → Shorter (strip_rounds k ts) ts
unfolding strip_rounds Shorter
Shorter-strip_rounds zero ts = inl refl
Shorter-strip_rounds (suc k) ts = elim (Bool-cases (is_wrapped ts && balanced 0 (inner ts))) [
  | inl off ↦
      let rest =
        Shorter-at_most (strip_rounds k (inner ts)) (inner ts)
          (Shorter-strip_rounds k (inner ts)) in
      let less = length-inner ts (ground (arith, off)) in
      subst (λ b. Shorter (if b then strip_rounds k (inner ts) else ts) ts) (sym off)
        (inr (omega (arith, rest, less)))
  | inr stays ↦
      subst (λ b. Shorter (if b then strip_rounds k (inner ts) else ts) ts) (sym stays) (inl refl)
]

Shorter-strip_parens : (ts : Tokens) → Shorter (strip_parens ts) ts
unfolding strip_parens
Shorter-strip_parens ts = Shorter-strip_rounds (length ts) ts

tokens_eq_self : (ts : Tokens) → tokens_eq ts ts ≡ true
unfolding tokens_eq
tokens_eq_self [] = refl
tokens_eq_self (t ∷ ts) = let e = bytes_eq_refl t in let rest = tokens_eq_self ts in rw (e, rest)

-- Brackets that come off leave fewer tokens.
length-strip_parens :
    (ts : Tokens) → tokens_eq (strip_parens ts) ts ≡ false → length (strip_parens ts) < length ts
unfolding Shorter
length-strip_parens ts h = elim (Shorter-strip_parens ts) [
  | inl same ↦
      let e : tokens_eq (strip_parens ts) ts ≡ true =
        ap (λ us. tokens_eq us ts) same ∙ tokens_eq_self ts in
      absurd (cc (h, e))
  | inr less ↦ less
]

-- Two results that are the same list.
abbrev Agree : Found → Found → Type 0
Agree x y = (cs : List Constraint) × (x ≡ some cs) × (y ≡ some cs)

-- Two ways to collect groups agree on tokens where they agree on all that is shorter.
module _ (f g : Tokens → Found) where
  extend_all-Agree :
      (gs : List Tokens)
      → All (λ x. Agree (f x) (g x)) gs
      → Agree (extend_all f gs) (extend_all g gs)
  unfolding extend_all
  extend_all-Agree [] h = ([], refl, refl)
  extend_all-Agree (x ∷ xs) h =
      let (cs, e, k) = h.0 in
      let (ds, e', k') = extend_all-Agree xs h.1 in
      (cs ++ ds, rw (e, e', extend_all), rw (k, k', extend_all))

  module _ (ts : Tokens) (agree : (x : Tokens) → length x < length ts → Agree (f x) (g x)) where
    collect_term-Agree : Agree (collect_term f ts) (collect_term g ts)
    unfolding collect_term
    collect_term-Agree = elim (Bool-cases (tokens_eq (strip_parens ts) ts)) [
      | inl same ↦
          (one_term (parse_alternative ts), rw (same, collect_term), rw (same, collect_term))
      | inr other ↦
          let (cs, e, k) = agree (strip_parens ts) (length-strip_parens ts other) in
          (cs, rw (other, collect_term) e, rw (other, collect_term) k)
    ]

    collect_and-Agree :
        (o : Option Groups)
        → split_top_level and_words ts ≡ o
        → Agree (collect_and f ts o) (collect_and g ts o)
    unfolding collect_and split_top_level
    collect_and-Agree none e = ([], refl, refl)
    collect_and-Agree (some (x, [])) e = collect_term-Agree
    collect_and-Agree (some (x, y ∷ ys)) e =
        let shorter =
          All-shorter and_words ts x y ys (split_from-cut and_words 0 ts (x, y ∷ ys) e) in
        extend_all-Agree (x ∷ y ∷ ys)
          (All-map (λ z. length z < length ts) (λ z. Agree (f z) (g z)) (x ∷ y ∷ ys) agree shorter)

    collect_or-Agree : (o : Option Groups) → Agree (collect_or f ts o) (collect_or g ts o)
    unfolding collect_or
    collect_or-Agree none = ([], refl, refl)
    collect_or-Agree (some (x, [])) = collect_and-Agree (split_top_level and_words ts) refl
    collect_or-Agree (some (x, y ∷ ys)) = (one_constraint (parse_all (x ∷ y ∷ ys)), refl, refl)

  collect_stripped-Agree :
      (ts : Tokens)
      → ((x : Tokens) → length x < length ts → Agree (f x) (g x))
      → Agree (collect_stripped f ts) (collect_stripped g ts)
  unfolding collect_stripped
  collect_stripped-Agree [] agree = ([], refl, refl)
  collect_stripped-Agree (t ∷ ts) agree =
      collect_or-Agree (t ∷ ts) agree (split_top_level or_words (t ∷ ts))

-- Two amounts of fuel above the number of the tokens give a list both, and the same one: the
-- recursion of _collect comes to an end within either.
pub collect_total :
    (k j : ℕ) (ts : Tokens)
    → length ts < k
    → length ts < j
    → (cs : List Constraint) × (collect k ts ≡ some cs) × (collect j ts ≡ some cs)
unfolding collect
collect_total zero j ts h l = absurd (omega (arith, h))
collect_total (suc k) zero ts h l = absurd (omega (arith, l))
collect_total (suc k) (suc j) ts h l =
    let m = Shorter-at_most (strip_parens ts) ts (Shorter-strip_parens ts) in
    collect_stripped-Agree (collect k) (collect j) (strip_parens ts)
      (λ x s. collect_total k j x (omega (arith, h, s, m)) (omega (arith, l, s, m)))
