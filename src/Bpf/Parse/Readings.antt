-- ===== src/Bpf/Parse/Readings.antt =====
-- How a reading shows in the groups of `_split_top_level`, and under `_strip_parens`.
use pcap_server.Prelude.{
  ℕ, zero, suc, ◌≡◌, refl, sym, ap, ◌∙◌, subst, true, false, ◌&&◌, List, [], ◌∷◌, ◌++◌, some, Text,
  arith, Bool-cases, inl, inr, if◌then◌else◌, All, Some, Some-append_left, Some-append_right,
  All-join, here, length,
}
use pcap_server.Bpf.{Alternative}
use pcap_server.Bpf.Search.{Packet}
use pcap_server.Bpf.Tokens.{
  Tokens, opening, closing, or_words, and_words, splits, parts, add_token, balanced, is_wrapped,
  inner, strip_rounds, strip_parens, next_depth,
}
use pcap_server.Bpf.Parse.{parse_alternative}
use pcap_server.Bpf.Parse.Depth.{
  top, cut, cut_none, cut-append, splits-next_depth, top-append, splits_depth,
}
use pcap_server.Bpf.Parse.Terms.{plain, plain-parse_term, top-plain}
use pcap_server.Bpf.Parse.Reads.{
  top-brackets, Reads, term, parens, both, either_left, either_right, splits_and, splits_or,
  top-operator, plain_starts, Reads-balanced, Reads-inner, top-is_wrapped,
}

splits_stays : (ops : List Text) (d : ℕ) (t : Text) → splits ops d t ≡ true → next_depth d t ≡ 0
splits_stays ops d t h =
    let e = splits_depth ops d t h in
    ap (λ n. next_depth n t) e ∙ splits-next_depth ops t (subst (λ n. splits ops n t ≡ true) e h)

top-parens :
    (ops : List Text) (us ts : Tokens)
    → balanced 0 us ≡ true
    → ts ≡ opening ∷ us ++ closing ∷ []
    → top ops 0 ts ≡ false
top-parens ops us ts b e = ap (top ops 0) e ∙ top-brackets ops us b

-- Groups without such an operator come from tokens without one.
pub Groups-top :
    (ops others : List Text) (d : ℕ) (ts : Tokens)
    → ((n : ℕ) (t : Text) → splits ops n t ≡ true → splits others n t ≡ false)
    → All (λ g. top others 0 g ≡ false) (cut ops d ts).1
    → top others d (cut ops d ts).0 ≡ false
    → top others d ts ≡ false
unfolding cut top add_token
Groups-top ops others d [] apart hs h = refl
Groups-top ops others d (t ∷ ts) apart hs h = elim (Bool-cases (splits ops d t)) [
  | inl yes_splits ↦
      let later = cut ops (next_depth d t) ts in
      let behind : All (λ g. top others 0 g ≡ false) (parts later) =
        subst (λ b. All (λ g. top others 0 g ≡ false) (add_token b t later).1) yes_splits hs in
      let zero_depth : next_depth d t ≡ 0 = splits_stays ops d t yes_splits in
      let rest =
        Groups-top ops others (next_depth d t) ts apart behind.1
          (ap (λ n. top others n later.0) zero_depth ∙ behind.0) in
      let here_none = apart d t yes_splits in rw (here_none, rest)
  | inr no_splits ↦
      let later = cut ops (next_depth d t) ts in
      let behind : All (λ g. top others 0 g ≡ false) later.1 =
        subst (λ b. All (λ g. top others 0 g ≡ false) (add_token b t later).1) no_splits hs in
      let first : top others d (t ∷ later.0) ≡ false =
        subst (λ b. top others d (add_token b t later).0 ≡ false) no_splits h in
      let rest = Groups-top ops others (next_depth d t) ts apart behind (ground (arith, first)) in
      ground (arith, first, rest)
]

top-strip_rounds :
    (ops : List Text) (k : ℕ) (ts : Tokens)
    → top ops 0 (strip_rounds k ts) ≡ false
    → top ops 0 ts ≡ false
unfolding strip_rounds
top-strip_rounds ops zero ts h = h
top-strip_rounds ops (suc k) ts h = elim (Bool-cases (is_wrapped ts && balanced 0 (inner ts))) [
  | inl off ↦ top-is_wrapped ops ts (ground (arith, off)) (ground (arith, off))
  | inr stays ↦ subst (λ b. top ops 0 (if b then strip_rounds k (inner ts) else ts) ≡ false) stays h
]

-- An alternative that parses has no "and" outside its brackets.
pub top-parse_alternative :
    (g : Tokens) (a : Alternative) → parse_alternative g ≡ some a → top and_words 0 g ≡ false
unfolding parse_alternative strip_parens
top-parse_alternative g a h =
    top-strip_rounds and_words (length g) g
      (top-plain (strip_parens g) (plain-parse_term (strip_parens g) a h)).1

module _ {ℓ} (Term : Packet → Tokens → Type ℓ) (p : Packet) where
  Reads-strip_rounds : (k : ℕ) (ts : Tokens) → Reads Term p ts → Reads Term p (strip_rounds k ts)
  unfolding strip_rounds
  Reads-strip_rounds zero ts r = r
  Reads-strip_rounds (suc k) ts r = elim (Bool-cases (is_wrapped ts && balanced 0 (inner ts))) [
    | inl off ↦
        subst (λ b. Reads Term p (if b then strip_rounds k (inner ts) else ts)) (sym off)
          (Reads-strip_rounds k (inner ts)
            (Reads-inner Term p ts (ground (arith, off)) (ground (arith, off)) r))
    | inr stays ↦
        subst (λ b. Reads Term p (if b then strip_rounds k (inner ts) else ts)) (sym stays) r
  ]

  pub Reads-strip_parens : (ts : Tokens) → Reads Term p ts → Reads Term p (strip_parens ts)
  unfolding strip_parens
  Reads-strip_parens ts r = Reads-strip_rounds (length ts) ts r

  -- Plain tokens read as a term only.
  pub Reads-plain : (ts : Tokens) → plain ts ≡ true → Reads Term p ts → Term p ts
  Reads-plain ts h (term _ k t) = t
  Reads-plain ts h (parens us _ r e) = absurd (plain_starts _ (subst (λ zs. plain zs ≡ true) e h))
  Reads-plain ts h (both xs ys _ op r s k e) =
      let outside =
        top-operator and_words xs op ys (Reads-balanced Term p xs r) (splits_and op k) in
      absurd (cc ((top-plain ts h).1, ap (top and_words 0) e, outside))
  Reads-plain ts h (either_left xs ys _ op r b k e) =
      let outside = top-operator or_words xs op ys (Reads-balanced Term p xs r) (splits_or op k) in
      absurd (cc ((top-plain ts h).0, ap (top or_words 0) e, outside))
  Reads-plain ts h (either_right xs ys _ op b s k e) =
      let outside = top-operator or_words xs op ys b (splits_or op k) in
      absurd (cc ((top-plain ts h).0, ap (top or_words 0) e, outside))

  -- Tokens without an operator of the one kind outside all brackets, cut at the other.
  top_left :
      (ops : List Text) (xs : Tokens) (op : Text) (ys ts : Tokens)
      → balanced 0 xs ≡ true
      → ts ≡ xs ++ op ∷ ys
      → top ops 0 ts ≡ false
      → top ops 0 xs ≡ false
  top_left ops xs op ys ts b e h =
      let whole = ap (top ops 0) e ∙ top-append ops 0 xs (op ∷ ys) b in ground (arith, h, whole)

  top_right :
      (ops : List Text) (xs : Tokens) (op : Text) (ys ts : Tokens)
      → balanced 0 xs ≡ true
      → next_depth 0 op ≡ 0
      → ts ≡ xs ++ op ∷ ys
      → top ops 0 ts ≡ false
      → top ops 0 ys ≡ false
  unfolding top
  top_right ops xs op ys ts b n e h =
      let whole = ap (top ops 0) e ∙ top-append ops 0 xs (op ∷ ys) b in
      let behind : top ops (next_depth 0 op) ys ≡ false = ground (arith, h, whole) in
      ap (λ d. top ops d ys) (sym n) ∙ behind

  parts-operator :
      (ops : List Text) (xs : Tokens) (op : Text) (ys ts : Tokens)
      → balanced 0 xs ≡ true
      → splits ops 0 op ≡ true
      → ts ≡ xs ++ op ∷ ys
      → parts (cut ops 0 xs) ++ parts (cut ops 0 ys) ≡ parts (cut ops 0 ts)
  parts-operator ops xs op ys ts b h e = sym (
      ap (λ zs. parts (cut ops 0 zs)) e
      ∙ cut-append ops 0 xs op ys b h
      ∙ ap (λ d. parts (cut ops 0 xs) ++ parts (cut ops d ys)) (splits-next_depth ops op h))

  parts_one :
      (ops : List Text) (ts : Tokens) → top ops 0 ts ≡ false → ts ∷ [] ≡ parts (cut ops 0 ts)
  parts_one ops ts h = ap parts (sym (cut_none ops 0 ts h))

  pub Reads-or_groups :
      (ts : Tokens)
      → top and_words 0 ts ≡ false
      → Reads Term p ts
      → Some (Reads Term p) (parts (cut or_words 0 ts))
  Reads-or_groups ts h (term _ k t) =
      subst (Some (Reads Term p)) (parts_one or_words ts k.1) (here (term ts k t))
  Reads-or_groups ts h (parens us _ r e) =
      subst (Some (Reads Term p))
        (parts_one or_words ts (top-parens or_words us ts (Reads-balanced Term p us r) e))
        (here (parens us ts r e))
  Reads-or_groups ts h (both xs ys _ op r s k e) =
      let outside =
        top-operator and_words xs op ys (Reads-balanced Term p xs r) (splits_and op k) in
      absurd (cc (h, ap (top and_words 0) e, outside))
  Reads-or_groups ts h (either_left xs ys _ op r b k e) =
      let c = Reads-balanced Term p xs r in
      subst (Some (Reads Term p)) (parts-operator or_words xs op ys ts c (splits_or op k) e) (
        Some-append_left (Reads Term p) (parts (cut or_words 0 xs)) (parts (cut or_words 0 ys))
          (Reads-or_groups xs (top_left and_words xs op ys ts c e h) r))
  Reads-or_groups ts h (either_right xs ys _ op b s k e) =
      let n = splits-next_depth or_words op (splits_or op k) in
      subst (Some (Reads Term p)) (parts-operator or_words xs op ys ts b (splits_or op k) e) (
        Some-append_right (Reads Term p) (parts (cut or_words 0 xs)) (parts (cut or_words 0 ys))
          (Reads-or_groups ys (top_right and_words xs op ys ts b n e h) s))

  pub Reads-and_groups :
      (ts : Tokens)
      → top or_words 0 ts ≡ false
      → Reads Term p ts
      → All (Reads Term p) (parts (cut and_words 0 ts))
  Reads-and_groups ts h (term _ k t) =
      subst (All (Reads Term p)) (parts_one and_words ts k.2) (term ts k t, tt)
  Reads-and_groups ts h (parens us _ r e) =
      subst (All (Reads Term p))
        (parts_one and_words ts (top-parens and_words us ts (Reads-balanced Term p us r) e))
        (parens us ts r e, tt)
  Reads-and_groups ts h (both xs ys _ op r s k e) =
      let c = Reads-balanced Term p xs r in
      let n = splits-next_depth and_words op (splits_and op k) in
      subst (All (Reads Term p)) (parts-operator and_words xs op ys ts c (splits_and op k) e) (
        All-join (Reads Term p) (parts (cut and_words 0 xs)) (parts (cut and_words 0 ys))
          (Reads-and_groups xs (top_left or_words xs op ys ts c e h) r)
          (Reads-and_groups ys (top_right or_words xs op ys ts c n e h) s))
  Reads-and_groups ts h (either_left xs ys _ op r b k e) =
      let outside = top-operator or_words xs op ys (Reads-balanced Term p xs r) (splits_or op k) in
      absurd (cc (h, ap (top or_words 0) e, outside))
  Reads-and_groups ts h (either_right xs ys _ op b s k e) =
      let outside = top-operator or_words xs op ys b (splits_or op k) in
      absurd (cc (h, ap (top or_words 0) e, outside))
